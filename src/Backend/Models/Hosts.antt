-- ===== src/Backend/Models/Hosts.antt =====
-- Writes to the column `active_containers`, where the primary keys are distinct.
use test_orch.Base.{
  ℕ, ◌≡◌, refl, ◌≢◌, inl, inr, List, [], ◌∷◌, some, arith, All, Mem, Bool-cases, eqb_iff,
  find-passes, ◌==◌, nat_eq, ==_ne, All-at, sym, ap, ◌∙◌,
}
use test_orch.Base.Int.{ℤ}
use test_orch.Base.Text.{Text, text_eq}
use test_orch.Backend.Models.{WorkerHost, set_active, get_host, host_by_name}

-- No two rows have the same key.
abbrev pub NodupIds : List WorkerHost → Type 0
NodupIds [] = Unit
NodupIds (host ∷ hosts) = All (λ h. h.id ≢ host.id) hosts × NodupIds hosts

pub set_active_of_absent :
    (key : ℕ) (n : ℤ) (hosts : List WorkerHost)
    → All (λ h. h.id ≢ key) hosts
    → set_active key n hosts ≡ hosts
unfolding set_active
set_active_of_absent key n [] h = refl
set_active_of_absent key n (host ∷ hosts) h =
    rw (==_ne host.id key h.0, set_active_of_absent key n hosts h.1)

-- The row that was written is found with its new value.
pub get_host-set_active :
    (host : WorkerHost) (n : ℤ) (hosts : List WorkerHost)
    → Mem host hosts
    → NodupIds hosts
    → get_host host.id (set_active host.id n hosts) ≡ some (record host { active_containers = n })
unfolding get_host set_active
get_host-set_active host n [] m u = absurd m
get_host-set_active host n (h ∷ hosts) (inl e) u = ground arith
get_host-set_active host n (h ∷ hosts) (inr m) u =
    ground
      (arith, All-at (λ x. x.id ≢ h.id) host hosts u.0 m, get_host-set_active host n hosts m u.1)

-- Writing the value that stands in the row undoes an earlier write.
pub set_active-set_active :
    (host : WorkerHost) (n : ℤ) (hosts : List WorkerHost)
    → Mem host hosts
    → NodupIds hosts
    → set_active host.id host.active_containers (set_active host.id n hosts) ≡ hosts
unfolding set_active
set_active-set_active host n [] m u = absurd m
set_active-set_active host n (h ∷ hosts) (inl e) u = ground (
  arith,
  set_active_of_absent h.id n hosts u.0,
  set_active_of_absent h.id host.active_containers hosts u.0,
)
set_active-set_active host n (h ∷ hosts) (inr m) u =
    ground
      (arith, All-at (λ x. x.id ≢ h.id) host hosts u.0 m, set_active-set_active host n hosts m u.1)

-- A key names one row.
pub eq_of_id :
    (x y : WorkerHost) (hosts : List WorkerHost)
    → NodupIds hosts
    → Mem x hosts
    → Mem y hosts
    → x.id ≡ y.id
    → x ≡ y
eq_of_id x y [] u m k e = absurd m
eq_of_id x y (h ∷ hosts) u (inl p) (inl q) e = p ∙ sym q
eq_of_id x y (h ∷ hosts) u (inl p) (inr k) e =
    absurd (All-at (λ z. z.id ≢ h.id) y hosts u.0 k (sym e ∙ ap (λ z. z.id) p))
eq_of_id x y (h ∷ hosts) u (inr m) (inl q) e =
    absurd (All-at (λ z. z.id ≢ h.id) x hosts u.0 m (e ∙ ap (λ z. z.id) q))
eq_of_id x y (h ∷ hosts) u (inr m) (inr k) e = eq_of_id x y hosts u.1 m k e

-- A write keeps a property of all rows if the rows that it writes have it afterwards.
pub All-set_active :
    (P : WorkerHost → Type 0) (key : ℕ) (n : ℤ) (hosts : List WorkerHost)
    → All P hosts
    → ((host : WorkerHost)
        → Mem host hosts
        → host.id ≡ key
        → P (record host { active_containers = n }))
    → All P (set_active key n hosts)
unfolding set_active
All-set_active P key n [] h written = tt
All-set_active P key n (x ∷ hosts) h written = (
  elim (Bool-cases (x.id == key)) [
    | inl same ↦ rw same (written x (inl refl) ((eqb_iff x.id key).0 same))
    | inr other ↦ rw other h.0
  ],
  All-set_active P key n hosts h.1 (λ y m. written y (inr m)),
)

pub get_host-Mem :
    (key : ℕ) (host : WorkerHost) (hosts : List WorkerHost)
    → get_host key hosts ≡ some host
    → Mem host hosts × (host.id ≡ key)
unfolding get_host
get_host-Mem key host [] h = cc
get_host-Mem key host (x ∷ hosts) h = ground (arith, get_host-Mem key host hosts, eqb_iff x.id key)

pub host_by_name-named :
    (name : Text) (host : WorkerHost) (hosts : List WorkerHost)
    → host_by_name name hosts ≡ some host
    → host.host_id ≡ name
unfolding host_by_name
host_by_name-named name host hosts h =
    (text_eq.test_iff host.host_id name).0
      (find-passes (λ (x : WorkerHost). x.host_id == name) host hosts h)

pub host_by_name-Mem :
    (name : Text) (host : WorkerHost) (hosts : List WorkerHost)
    → host_by_name name hosts ≡ some host
    → Mem host hosts
unfolding host_by_name
host_by_name-Mem name host [] h = cc
host_by_name-Mem name host (x ∷ hosts) h = ground (arith, host_by_name-Mem name host hosts)

absent-set_active :
    (k key : ℕ) (n : ℤ) (hosts : List WorkerHost)
    → All (λ h. h.id ≢ k) hosts
    → All (λ h. h.id ≢ k) (set_active key n hosts)
absent-set_active k key n hosts h =
    All-set_active (λ x. x.id ≢ k) key n hosts h
      (λ host m same. All-at (λ x. x.id ≢ k) host hosts h m)

pub NodupIds-set_active :
    (key : ℕ) (n : ℤ) (hosts : List WorkerHost) → NodupIds hosts → NodupIds (set_active key n hosts)
unfolding set_active
NodupIds-set_active key n [] u = tt
NodupIds-set_active key n (x ∷ hosts) u = elim (Bool-cases (x.id == key)) [
  | inl same ↦ rw same (absent-set_active x.id key n hosts u.0, NodupIds-set_active key n hosts u.1)
  | inr other ↦
      rw other (absent-set_active x.id key n hosts u.0, NodupIds-set_active key n hosts u.1)
]
