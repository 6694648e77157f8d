-- ===== src/Backend/Config/Reader.antt =====
-- The parts of an address, as RFC 3986 splits it: the authority ends at the first slash, question
-- mark or number sign, and the path at the first of the latter two; the user is what stands before
-- `@`, up to the first colon.
use test_orch.Base.{
  ℕ, ◌≡◌, refl, Bool, true, not, ◌&&◌, ◌||◌, [], ◌∷◌, ◌++◌, Option, none, some, if◌then◌else◌, eqb,
  all, arith,
}
use test_orch.Base.Decimal.{read_onto}
use test_orch.Base.ParseInt.{is_digit}
use test_orch.Base.Text.{Text}

-- `s.partition(sep)`, if `sep` occurs.
unfoldable pub cut : ℕ → Text → Option (Text × Text)
cut sep [] = none
cut sep (c ∷ s) =
    let rest = cut sep s in
    if eqb c sep then some ([], s) else elim rest [ none ↦ none | some p ↦ some (c ∷ p.0, p.1) ]

-- What stands before the first character that passes the test, and the rest with it.
unfoldable pub until : (ℕ → Bool) → Text → Text × Text
until stop [] = ([], [])
until stop (c ∷ s) = let rest = until stop s in if stop c then ([], c ∷ s) else (c ∷ rest.0, rest.1)

-- What ends the path.
abbrev pub ends_path : ℕ → Bool
ends_path c = eqb c b'?' || eqb c b'#'

-- What ends the authority.
abbrev pub ends_authority : ℕ → Bool
ends_authority c = eqb c b'/' || ends_path c

-- What ends the scheme.
abbrev pub ends_scheme : ℕ → Bool
ends_scheme c = eqb c b':' || ends_authority c

-- None of the characters that have a meaning of their own in a path.
abbrev pub is_segment : ℕ → Bool
is_segment c = not (ends_path c) && not (eqb c b'[') && not (eqb c b']') && not (eqb c b'%')

abbrev pub is_secret : ℕ → Bool
is_secret c = is_segment c && not (eqb c b'/') && not (eqb c b'@')

abbrev pub is_plain : ℕ → Bool
is_plain c = not (eqb c b':') && is_secret c

-- Free of the general delimiters of RFC 3986, which are `:/?#[]@`, and of percent signs.
abbrev pub IsPlain : Text → Type 0
IsPlain s = all is_plain s ≡ true

-- The same, but colons are allowed, as in a password.
abbrev pub IsSecret : Text → Type 0
IsSecret s = all is_secret s ≡ true

-- The same, but colons, slashes and `@` are allowed, as in a path.
abbrev pub IsSegment : Text → Type 0
IsSegment s = all is_segment s ≡ true

-- `path` has its slash in front, and `rest` is the query and the fragment with theirs.
pub record Address : Type 0 where
  pub scheme : Text
  pub user : Text
  pub password : Text
  pub host : Text
  pub port : ℕ
  pub path : Text
  pub rest : Text

abbrev and_then {ℓ} : {A B : Type ℓ} → Option A → (A → Option B) → Option B
and_then none f = none
and_then (some a) f = f a

-- The user, the password, the host and the port of an authority that has all four.
unfoldable pub read_authority : Text → Option ((Text × Text) × Text × ℕ)
unfolding cut
read_authority s = and_then (cut b'@' s) λ sides. and_then (cut b':' sides.0) λ who.
    and_then (cut b':' sides.1)
      λ place. if all is_digit place.1 then some (who, place.0, read_onto 0 place.1) else none

-- Behind the colon and the two slashes.
abbrev hierarchical : Text → Option Text
hierarchical (b ∷ c ∷ d ∷ s) = if eqb b b':' && (eqb c b'/' && eqb d b'/') then some s else none
hierarchical s = none

-- The parts of an address, as the regular expression in appendix B of RFC 3986 splits it; first of
-- what stands behind the slashes.
unfoldable pub read_hierarchy : Text → Text → Option Address
read_hierarchy scheme t =
    let (authority, below) = until ends_authority t in
    let (path, rest) = until ends_path below in
    and_then (read_authority authority) λ parts. some (record {
      scheme = scheme;
      user = parts.0.0;
      password = parts.0.1;
      host = parts.1;
      port = parts.2;
      path = path;
      rest = rest;
    })

unfoldable pub read_url : Text → Option Address
read_url s =
    let (scheme, behind) = until ends_scheme s in
    and_then (hierarchical behind) (λ t. read_hierarchy scheme t)

pub until-append :
    (stop : ℕ → Bool) (s : Text) (c : ℕ) (rest : Text)
    → stop c ≡ true
    → all (λ d. not (stop d)) s ≡ true
    → until stop (s ++ (c ∷ rest)) ≡ (s, c ∷ rest)
unfolding until
until-append stop [] c rest stops h = rw stops refl
until-append stop (d ∷ s) c rest stops h = ground (arith, until-append stop s c rest stops)

pub until-all :
    (stop : ℕ → Bool) (s : Text) → all (λ d. not (stop d)) s ≡ true → until stop s ≡ (s, [])
unfolding until
until-all stop [] h = refl
until-all stop (d ∷ s) h = ground (arith, until-all stop s)

pub cut-append :
    (sep : ℕ) (s rest : Text)
    → all (λ c. not (eqb c sep)) s ≡ true
    → cut sep (s ++ (sep ∷ rest)) ≡ some (s, rest)
unfolding cut
cut-append sep [] rest h = ground arith
cut-append sep (c ∷ s) rest h = ground (arith, cut-append sep s rest)

pub all-imp :
    (p q : ℕ → Bool) (s : Text)
    → ((c : ℕ) → p c ≡ true → q c ≡ true)
    → all p s ≡ true
    → all q s ≡ true
all-imp p q [] f h = refl
all-imp p q (c ∷ s) f h = ground (arith, f c, all-imp p q s f)
