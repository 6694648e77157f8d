-- ===== src/Backend/Ledger.antt =====
-- What the program promises of the hosts' capacity, with everything else forgotten: a ledger of
-- slots, in which one step takes a free slot or gives a taken one back.
pub mod Moves
use test_orch.Base.{
  ℕ, ◌≡◌, ◌≢◌, refl, sym, subst, ap, List, [], ◌∷◌, map, arith, All, All-at, All-map, All-unmap,
  Mem, inl, inr, ==_refl, ==_ne, nat_eq, ◌==◌,
}
use test_orch.Base.Int.{ℤ, pos, ◌≤ℤ◌, ◌<ℤ◌, ◌+ℤ◌, ◌-ℤ◌}
use test_orch.Backend.Models.{WorkerHost, set_active}
use test_orch.Backend.Models.Hosts.{NodupIds, set_active_of_absent, All-set_active}

-- The slots of one host: how many are in use, and how many there are at most.
pub record Slots : Type 0 where
  pub host : ℕ
  pub used : ℤ
  pub most : ℤ

-- One slot is taken, where there is one, or given back.
pub data Change : Slots → Slots → Type 0 where
  take : (s : Slots) → s.used <ℤ s.most → Change s (record s { used = s.used +ℤ pos 1 })
  give : (s : Slots) → pos 0 <ℤ s.used → Change s (record s { used = s.used -ℤ pos 1 })

-- The slots of one host change.
pub data Move : List Slots → List Slots → Type 0 where
  here : {s t : Slots} {rest : List Slots} → Change s t → Move (s ∷ rest) (t ∷ rest)
  there : (s : Slots) {xs ys : List Slots} → Move xs ys → Move (s ∷ xs) (s ∷ ys)

pub data Trace (start : List Slots) : List Slots → Type 0 where
  begin : Trace start start
  move : {s t : List Slots} → Trace start s → Move s t → Trace start t

pub Trace-trans : {a b c : List Slots} → Trace a b → Trace b c → Trace a c
Trace-trans p begin = p
Trace-trans p (move q m) = move (Trace-trans p q) m

-- The numbers are in order: at least none, at most all of the slots are in use.
pub record IsWithin (s : Slots) : Type 0 where
  pub low : pos 0 ≤ℤ s.used
  pub high : s.used ≤ℤ s.most

Change-IsWithin : {s t : Slots} → Change s t → IsWithin s → IsWithin t
unfolding ◌+ℤ◌ ◌-ℤ◌
Change-IsWithin (take s spare) v = ground arith
Change-IsWithin (give s positive) v = ground arith

Move-IsWithin : {xs ys : List Slots} → Move xs ys → All IsWithin xs → All IsWithin ys
Move-IsWithin (here c) h = (Change-IsWithin c h.0, h.1)
Move-IsWithin (there s m) h = (h.0, Move-IsWithin m h.1)

pub Trace-IsWithin : {xs ys : List Slots} → Trace xs ys → All IsWithin xs → All IsWithin ys
Trace-IsWithin begin h = h
Trace-IsWithin (move p m) h = Move-IsWithin m (Trace-IsWithin p h)

-- What the ledger keeps of the rows.
abbrev pub slots_of : WorkerHost → Slots
slots_of h = record { host = h.id; used = h.active_containers; most = h.max_containers }

abbrev pub ledger : List WorkerHost → List Slots
ledger hosts = map slots_of hosts

set_active-head :
    (host : WorkerHost) (n : ℤ) (hosts : List WorkerHost)
    → All (λ h. h.id ≢ host.id) hosts
    → set_active host.id n (host ∷ hosts) ≡ record host { active_containers = n } ∷ hosts
unfolding set_active
set_active-head host n hosts absent = rw (==_refl host.id) (
    ap (λ hs. record host { active_containers = n } ∷ hs)
      (set_active_of_absent host.id n hosts absent))

set_active-tail :
    (key : ℕ) (n : ℤ) (h : WorkerHost) (hosts : List WorkerHost)
    → h.id ≢ key
    → set_active key n (h ∷ hosts) ≡ h ∷ set_active key n hosts
unfolding set_active
set_active-tail key n h hosts other = rw (==_ne h.id key other) refl

-- The names and the limits of the hosts stay.
Change-fixed : (Q : ℕ → ℤ → Type 0) {s t : Slots} → Change s t → Q s.host s.most → Q t.host t.most
Change-fixed Q (take s spare) q = q
Change-fixed Q (give s positive) q = q

Move-fixed :
    (Q : ℕ → ℤ → Type 0) {xs ys : List Slots}
    → Move xs ys
    → All (λ s. Q s.host s.most) xs
    → All (λ s. Q s.host s.most) ys
Move-fixed Q (here c) h = (Change-fixed Q c h.0, h.1)
Move-fixed Q (there s m) h = (h.0, Move-fixed Q m h.1)

pub Trace-fixed :
    (Q : ℕ → ℤ → Type 0) {xs ys : List Slots}
    → Trace xs ys
    → All (λ s. Q s.host s.most) xs
    → All (λ s. Q s.host s.most) ys
Trace-fixed Q begin h = h
Trace-fixed Q (move p m) h = Move-fixed Q m (Trace-fixed Q p h)

-- The write of a row's count keeps what holds of all slots and of the new ones.
pub All-ledger-set_active :
    (P : Slots → Type 0) (key : ℕ) (n : ℤ) (hosts : List WorkerHost)
    → All P (ledger hosts)
    → ((h : WorkerHost) → Mem h hosts → h.id ≡ key → P (record (slots_of h) { used = n }))
    → All P (ledger (set_active key n hosts))
All-ledger-set_active P key n hosts h written =
    All-map P slots_of (set_active key n hosts)
      (All-set_active (λ x. P (slots_of x)) key n hosts (All-unmap P slots_of hosts h) written)

-- The write of a row's count is a move, if it is one on this row's slots.
pub set_active-Move :
    (host : WorkerHost) (n : ℤ) (hosts : List WorkerHost)
    → NodupIds hosts
    → Mem host hosts
    → Change (slots_of host) (record (slots_of host) { used = n })
    → Move (ledger hosts) (ledger (set_active host.id n hosts))
set_active-Move host n [] u m c = absurd m
set_active-Move host n (h ∷ hosts) u (inl e) c =
    let absent = subst (λ (z : WorkerHost). All (λ x. x.id ≢ z.id) hosts) (sym e) u.0 in
    subst (λ z. Move (ledger (z ∷ hosts)) (ledger (set_active host.id n (z ∷ hosts)))) e
      (subst (λ hs. Move (ledger (host ∷ hosts)) (ledger hs))
        (sym (set_active-head host n hosts absent)) (here c))
set_active-Move host n (h ∷ hosts) u (inr m) c =
    let other : h.id ≢ host.id = λ e. All-at (λ x. x.id ≢ h.id) host hosts u.0 m (sym e) in
    subst (λ hs. Move (ledger (h ∷ hosts)) (ledger hs))
      (sym (set_active-tail host.id n h hosts other))
      (there (slots_of h) (set_active-Move host n hosts u.1 m c))
