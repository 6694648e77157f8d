-- ===== src/System/Weave.antt =====
-- The program with the worker's decrement taken apart: it reads its host's row, and later writes the
-- count back, without a lock.
use test_orch.Base.{
  ℕ, ◌≡◌, refl, sym, subst, ap, true, List, [], ◌∷◌, some, arith, All, All-at, All-of, All-map,
  All-unmap, All-imp, Mem, inl, inr,
}
use test_orch.Base.Int.{ℤ, pos, ◌≤ℤ◌, ◌-ℤ◌, ltb_ℤ}
use test_orch.Base.Text.{Text}
use test_orch.Backend.Models.{WorkerHost, host_by_name, set_active}
use test_orch.Backend.Models.Hosts.{NodupIds, NodupIds-set_active, eq_of_id, host_by_name-Mem}
use test_orch.Backend.Effects.{World, Environment}
use test_orch.Backend.Ledger.{
  ledger, slots_of, IsWithin, Trace-IsWithin, Trace-fixed, All-ledger-set_active,
}
use test_orch.Backend.Ledger.Moves.{Follows}
use test_orch.Backend.Scheduler.{FloatOps}
use test_orch.Worker.Tasks.{write_back}
use test_orch.Worker.Tasks.Race.{write_back-cases}
use test_orch.System as System

-- `reads` are the rows that decrements have read and not yet written back.
pub record Stage : Type 0 where
  pub world : World
  pub reads : List WorkerHost

-- One of the rows is taken from the list.
pub data Taken (host : WorkerHost) : List WorkerHost → List WorkerHost → Type 0 where
  first : {rest : List WorkerHost} → Taken host (host ∷ rest) rest
  later :
      (other : WorkerHost) {xs ys : List WorkerHost}
      → Taken host xs ys
      → Taken host (other ∷ xs) (other ∷ ys)

module _ (ops : FloatOps) where
  -- A whole operation, or half of a decrement.
  pub data Weave : Stage → Stage → Type 0 where
    whole : (s : Stage) {w : World} → System.Step ops s.world w → Weave s (record s { world = w })
    read :
        (s : Stage) (name : Text) (host : WorkerHost)
        → host_by_name name s.world.db.hosts ≡ some host
        → Weave s (record s { reads = host ∷ s.reads })
    write :
        (s : Stage) (env : Environment) (host : WorkerHost) {rest : List WorkerHost}
        → Taken host s.reads rest
        → Weave s (record { world = (write_back env host s.world).1; reads = rest })

  pub data Woven (start : World) : Stage → Type 0 where
    origin : Woven start (record { world = start; reads = [] })
    next : {s t : Stage} → Woven start s → Weave s t → Woven start t

-- The limit that a host has is the one of the row.
abbrev Limits : WorkerHost → ℕ → ℤ → Type 0
Limits row key most = key ≡ row.id → most ≡ row.max_containers

-- What has been read was within its limit, and the limit stands.
record IsFit (hosts : List WorkerHost) (row : WorkerHost) : Type 0 where
  high : row.active_containers ≤ℤ row.max_containers
  fixed : All (λ s. Limits row s.host s.most) (ledger hosts)

record Inv (s : Stage) : Type 0 where
  keys : NodupIds s.world.db.hosts
  within : All IsWithin (ledger s.world.db.hosts)
  fit : All (IsFit s.world.db.hosts) s.reads

IsFit-read :
    (hosts : List WorkerHost) (row : WorkerHost)
    → NodupIds hosts
    → All IsWithin (ledger hosts)
    → Mem row hosts
    → IsFit hosts row
IsFit-read hosts row u v m = record {
  high =
      (All-at (λ h. IsWithin (slots_of h)) row hosts (All-unmap IsWithin slots_of hosts v) m).high;
  fixed =
      All-map (λ s. Limits row s.host s.most) slots_of hosts
        (All-of (λ h. Limits row h.id h.max_containers) hosts
          λ h mh same.
            ap (λ (x : WorkerHost). x.max_containers) (eq_of_id h row hosts u mh m same));
}

set_active-IsFit :
    (key : ℕ) (n : ℤ) (hosts : List WorkerHost) (row : WorkerHost)
    → IsFit hosts row
    → IsFit (set_active key n hosts) row
set_active-IsFit key n hosts row f = record {
  high = f.high;
  fixed =
      All-ledger-set_active (λ s. Limits row s.host s.most) key n hosts f.fixed
        λ h m same.
          All-at (λ x. Limits row x.id x.max_containers) h hosts
            (All-unmap (λ s. Limits row s.host s.most) slots_of hosts f.fixed) m;
}

Taken-Mem : {host : WorkerHost} {xs ys : List WorkerHost} → Taken host xs ys → Mem host xs
Taken-Mem first = inl refl
Taken-Mem (later other t) = inr (Taken-Mem t)

Taken-All :
    (P : WorkerHost → Type 0) {host : WorkerHost} {xs ys : List WorkerHost}
    → Taken host xs ys
    → All P xs
    → All P ys
Taken-All P first h = h.1
Taken-All P (later other t) h = (h.0, Taken-All P t h.1)

less-IsWithin :
    (used most limit : ℤ)
    → used ≤ℤ limit
    → most ≡ limit
    → ltb_ℤ (pos 0) used ≡ true
    → (pos 0 ≤ℤ used -ℤ pos 1) × (used -ℤ pos 1 ≤ℤ most)
unfolding ◌-ℤ◌
less-IsWithin used most limit high same positive = ground arith

-- A write of what was read, less one, keeps all that is known.
write-Inv :
    (hosts : List WorkerHost) (reads : List WorkerHost) (row : WorkerHost) (w : World)
    → NodupIds hosts
    → All IsWithin (ledger hosts)
    → All (IsFit hosts) reads
    → IsFit hosts row
    → ltb_ℤ (pos 0) row.active_containers ≡ true
    → w.db.hosts ≡ set_active row.id (row.active_containers -ℤ pos 1) hosts
    → Inv (record { world = w; reads = reads })
write-Inv hosts reads row w keys within reads_fit fit positive wrote =
    let n = row.active_containers -ℤ pos 1 in
    record {
      keys = subst NodupIds (sym wrote) (NodupIds-set_active row.id n hosts keys);
      within =
          subst (λ hs. All IsWithin (ledger hs)) (sym wrote)
            (All-ledger-set_active IsWithin row.id n hosts within λ h m same.
              let limit =
                All-at (λ x. Limits row x.id x.max_containers) h hosts
                  (All-unmap (λ s. Limits row s.host s.most) slots_of hosts fit.fixed) m same in
              let (low, high) =
                less-IsWithin row.active_containers h.max_containers row.max_containers fit.high
                  limit positive in
              record { low = low; high = high });
      fit =
          subst (λ hs. All (IsFit hs) reads) (sym wrote)
            (All-imp (IsFit hosts) (IsFit (set_active row.id n hosts)) reads
              (λ r f. set_active-IsFit row.id n hosts r f) reads_fit);
    }

Follows-IsFit :
    (hosts after : List WorkerHost) (row : WorkerHost)
    → Follows hosts after
    → IsFit hosts row
    → IsFit after row
Follows-IsFit hosts after row f v = record {
  high = v.high;
  fixed = Trace-fixed (Limits row) f.1 v.fixed;
}

Weave-Inv : (ops : FloatOps) {s t : Stage} → Weave ops s t → Inv s → Inv t
Weave-Inv ops (whole s {w} step) v =
    let f = System.Step-Follows ops step v.keys in
    record {
      keys = f.0;
      within = Trace-IsWithin f.1 v.within;
      fit =
          All-imp (IsFit s.world.db.hosts) (IsFit w.db.hosts) s.reads
            (λ row k. Follows-IsFit s.world.db.hosts w.db.hosts row f k) v.fit;
    }
Weave-Inv ops (read s name host found) v = record {
  keys = v.keys;
  within = v.within;
  fit = (
    IsFit-read s.world.db.hosts host v.keys v.within
        (host_by_name-Mem name host s.world.db.hosts found),
    v.fit,
  );
}
Weave-Inv ops (write s env host {rest} taken) v =
    let fit = All-at (IsFit s.world.db.hosts) host s.reads v.fit (Taken-Mem taken) in
    let others = Taken-All (IsFit s.world.db.hosts) taken v.fit in
    elim (write_back-cases env host s.world) [
      | inl same ↦
          subst
            (λ hs.
              NodupIds hs × All IsWithin (ledger hs) × All (IsFit hs) rest
              → Inv (record { world = (write_back env host s.world).1; reads = rest }))
            same (λ (k, h, f). record { keys = k; within = h; fit = f }) (v.keys, v.within, others)
      | inr (positive, wrote) ↦
          write-Inv s.world.db.hosts rest host (write_back env host s.world).1 v.keys v.within
            others fit positive wrote
    ]

Woven-Inv :
    (ops : FloatOps) (start : World) {s : Stage}
    → Woven ops start s
    → NodupIds start.db.hosts
    → All IsWithin (ledger start.db.hosts)
    → Inv s
Woven-Inv ops start origin u v = record { keys = u; within = v; fit = tt }
Woven-Inv ops start (next r step) u v = Weave-Inv ops step (Woven-Inv ops start r u v)

-- Though the decrement holds no lock, no host ever runs more than its limit, nor fewer than none:
-- after any operations in any order, with any failures, and with any of them between a decrement's
-- read and its write, if that is so at the start and the keys of the hosts are distinct.
pub Woven-IsWithin :
    (ops : FloatOps) (start : World) (s : Stage)
    → Woven ops start s
    → NodupIds start.db.hosts
    → All IsWithin (ledger start.db.hosts)
    → All IsWithin (ledger s.world.db.hosts)
Woven-IsWithin ops start s r u v = (Woven-Inv ops start r u v).within
