-- ===== src/Backend/Config/Address.antt =====
-- The addresses of the database and of the broker, read back.
use test_orch.Base.{
  ℕ, ◌+◌, ◌<◌, ◌≡◌, refl, sym, ap, ◌∙◌, Bool, true, not, [], ◌∷◌, ◌++◌, none, some, eqb, all, arith,
}
use test_orch.Base.Int.{pos}
use test_orch.Base.Decimal.{decimal, read_onto-decimal, all-decimal}
use test_orch.Base.ParseInt.{is_digit}
use test_orch.Base.Text.{Text, text}
use test_orch.Base.Text.Strip.{all-append}
use test_orch.Backend.Config.{Settings, locator, sqlalchemy_url, amqp_url}
use mathlib.Core.List.{append_assoc}
use test_orch.Backend.Config.Reader.{
  IsPlain, IsSecret, IsSegment, ends_path, ends_authority, ends_scheme, is_segment, is_secret,
  is_plain, until, read_authority, read_hierarchy, read_url, until-append, until-all, cut-append,
  all-imp,
}

module _ (user password host path : Text) (n : ℕ) where
  who : Text
  who = user ++ (b':' ∷ password)

  place : Text
  place = host ++ (b':' ∷ decimal n)

  authority : Text
  unfolding who place
  authority = who ++ (b'@' ∷ place)

  locator-regroup : locator user password host (pos n) path ≡ authority ++ (b'/' ∷ path)
  unfolding authority
  locator-regroup = sym (
      append_assoc who (b'@' ∷ place) (b'/' ∷ path)
      ∙ append_assoc user (b':' ∷ password) (b'@' ∷ (place ++ (b'/' ∷ path)))
      ∙ ap (λ t. user ++ (b':' ∷ (password ++ (b'@' ∷ t))))
          (append_assoc host (b':' ∷ decimal n) (b'/' ∷ path)))

  -- What the parts lack, the sides of the address lack.
  who-Lacks :
      (p : ℕ → Bool) → p b':' ≡ true → all p user ≡ true → all p password ≡ true → all p who ≡ true
  unfolding who
  who-Lacks p colon h k = rw (all-append p user (b':' ∷ password), h, colon) k

  place-Lacks :
      (p : ℕ → Bool)
      → p b':' ≡ true
      → ((d : ℕ) → d < 10 → p (b'0' + d) ≡ true)
      → all p host ≡ true
      → all p place ≡ true
  unfolding place
  place-Lacks p colon digit h =
      rw (all-append p host (b':' ∷ decimal n), h, colon) (all-decimal p n digit)

  read_authority-authority :
      IsPlain user
      → IsSecret password
      → IsPlain host
      → read_authority authority ≡ some ((user, password), host, n)
  unfolding read_authority authority
  read_authority-authority u s h =
      let q : ℕ → Bool = λ c. not (eqb c b'@') in
      let r : ℕ → Bool = λ c. not (eqb c b':') in
      let sides : all q who ≡ true =
        who-Lacks q refl (all-imp is_plain q user (λ c k. ground arith) u)
          (all-imp is_secret q password (λ c k. ground arith) s) in
      let named : all r user ≡ true = all-imp is_plain r user (λ c k. ground arith) u in
      let placed : all r host ≡ true = all-imp is_plain r host (λ c k. ground arith) h in
      rw
        (
          cut-append b'@' who place sides,
          cut-append b':' user password named,
          cut-append b':' host (decimal n) placed,
          all-decimal is_digit n (λ d less. ground arith),
          read_onto-decimal n,
        )
        refl

  -- The authority ends where the path begins.
  until-authority :
      IsPlain user
      → IsSecret password
      → IsPlain host
      → until ends_authority (locator user password host (pos n) path) ≡ (authority, b'/' ∷ path)
  unfolding authority
  until-authority u s h =
      let p : ℕ → Bool = λ c. not (ends_authority c) in
      let solid : all p authority ≡ true =
        rw
          (
            all-append p who (b'@' ∷ place),
            who-Lacks p refl (all-imp is_plain p user (λ c k. ground arith) u)
                (all-imp is_secret p password (λ c k. ground arith) s),
          )
          (place-Lacks p refl (λ d less. ground arith)
            (all-imp is_plain p host (λ c k. ground arith) h)) in
      ap (until ends_authority) locator-regroup
      ∙ until-append ends_authority authority b'/' path refl solid

  until-path : IsSegment path → until ends_path (b'/' ∷ path) ≡ (b'/' ∷ path, [])
  unfolding until
  until-path h =
      let p : ℕ → Bool = λ c. not (ends_path c) in
      until-all ends_path (b'/' ∷ path) (all-imp is_segment p path (λ c k. ground arith) h)

  read_hierarchy-locator :
      (scheme : Text)
      → IsPlain user
      → IsSecret password
      → IsPlain host
      → IsSegment path
      → read_hierarchy scheme (locator user password host (pos n) path)
        ≡ some (record {
          scheme = scheme;
          user = user;
          password = password;
          host = host;
          port = n;
          path = b'/' ∷ path;
          rest = [];
        })
  unfolding read_hierarchy
  read_hierarchy-locator scheme u s h d =
      rw (until-authority u s h, until-path d, read_authority-authority u s h) refl

read_url-scheme :
    (scheme t : Text)
    → all (λ c. not (ends_scheme c)) scheme ≡ true
    → read_url (scheme ++ (b':' ∷ b'/' ∷ b'/' ∷ t)) ≡ read_hierarchy scheme t
unfolding read_url
read_url-scheme scheme t h = rw (until-append ends_scheme scheme b':' (b'/' ∷ b'/' ∷ t) refl h) refl

-- The address of the database that the settings spell in parts, split as RFC 3986 says, has exactly
-- these parts, and so has the address of the broker that the sockets listen to; the name of the
-- database is the path, and no query and no fragment is left. Users and hosts are free of general
-- delimiters and percent signs, passwords too but for colons, and the name of the database is free
-- of question marks, number signs, brackets and percent signs.
pub read_url-addresses :
    (s : Settings) (port rabbit : ℕ)
    → s.database_url ≡ none
    → (s.postgres_port ≡ pos port) × (s.rabbitmq_port ≡ pos rabbit)
    → IsPlain s.postgres_user × IsSecret s.postgres_password × IsPlain s.postgres_host
    → IsSegment s.postgres_db
    → IsPlain s.rabbitmq_user × IsSecret s.rabbitmq_password × IsPlain s.rabbitmq_host
    → (read_url (sqlalchemy_url s)
        ≡ some (record {
          scheme = text "postgresql+psycopg";
          user = s.postgres_user;
          password = s.postgres_password;
          host = s.postgres_host;
          port = port;
          path = b'/' ∷ s.postgres_db;
          rest = [];
        }))
      × (read_url (amqp_url s)
          ≡ some (record {
            scheme = text "amqp";
            user = s.rabbitmq_user;
            password = s.rabbitmq_password;
            host = s.rabbitmq_host;
            port = rabbit;
            path = text "/";
            rest = [];
          }))
unfolding sqlalchemy_url amqp_url
read_url-addresses s port rabbit unset (p, q) (u, k, h) d (u', k', h') =
    let database =
      locator s.postgres_user s.postgres_password s.postgres_host (pos port) s.postgres_db in
    let broker = locator s.rabbitmq_user s.rabbitmq_password s.rabbitmq_host (pos rabbit) [] in
    (
      rw (unset, p)
          (read_url-scheme (text "postgresql+psycopg") database refl
            ∙ read_hierarchy-locator s.postgres_user s.postgres_password s.postgres_host
                s.postgres_db port (text "postgresql+psycopg") u k h d),
      rw q (
          read_url-scheme (text "amqp") broker refl
          ∙ read_hierarchy-locator s.rabbitmq_user s.rabbitmq_password s.rabbitmq_host [] rabbit
              (text "amqp") u' k' h' refl),
    )
