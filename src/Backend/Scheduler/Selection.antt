-- ===== src/Backend/Scheduler/Selection.antt =====
-- `select_host` returns the best qualified host, or nothing if no host qualifies.
use test_orch.Base.{
  ◌≡◌, refl, subst, List, [], ◌∷◌, map, Option, none, some, ap, All, All-at, Mem, Mem-map, All-keep,
  contains_iff,
}
use test_orch.Base.Text.{text_eq}
use test_orch.Base.Result.{ok, >>=-eq-ok}
use test_orch.Shared.Schemas.{TestBundleRequest}
use test_orch.Backend.Models.{WorkerHost, Database}
use test_orch.Backend.Scheduler.{
  FloatOps, IsLawful, Candidate, RankedHost, survivors_of, passes_filter, workload_score,
  min_by_key, best_of, select_host,
}
use test_orch.Backend.Scheduler.Filter.{Qualifies, survivors_of_iff}
use test_orch.Backend.Scheduler.Ranking.{
  NotLighter, IsLightest, IsScorable, min_by_key-IsLightest, min_by_key_total,
}

module _ (ops : FloatOps) where
  -- A qualified row with its score, and no qualified row has a lesser score, or the same score and
  -- a lesser name.
  pub record IsBest (bundle : TestBundleRequest) (hosts : List WorkerHost) (c : Candidate)
      : Type 0 where
    pub listed : Mem c.0 hosts
    pub qualifies : Qualifies bundle c.0
    pub scored : workload_score ops c.0 ≡ ok c.1
    pub least : (host : WorkerHost) → Mem host hosts → Qualifies bundle host → NotLighter ops c host

  pub IsLightest→IsBest :
      (bundle : TestBundleRequest) (hosts : List WorkerHost) (c : Candidate)
      → IsLightest ops (survivors_of bundle hosts) c
      → IsBest bundle hosts c
  IsLightest→IsBest bundle hosts c l =
      let (m, q) = (survivors_of_iff bundle c.0 hosts).0 l.listed in
      record {
        listed = m;
        qualifies = q;
        scored = l.scored;
        least = λ host mh qh.
            All-at (NotLighter ops c) host (survivors_of bundle hosts) l.least
              ((survivors_of_iff bundle host hosts).1 (mh, qh));
      }

  abbrev ranked : Candidate → RankedHost
  ranked (host, score) = record { host_id = host.host_id; score = score }

  best_of_min :
      (host : WorkerHost) (hosts : List WorkerHost) (c : Candidate)
      → min_by_key ops host hosts ≡ ok c
      → best_of ops (host ∷ hosts) ≡ ok (some (ranked c))
  unfolding best_of
  best_of_min host hosts c e =
      let l = min_by_key-IsLightest ops host hosts c e in
      let named = Mem-map (λ (h : WorkerHost). h.host_id) c.0 (host ∷ hosts) l.listed in
      rw (e, l.scored, (contains_iff (map (λ h. h.host_id) (host ∷ hosts)) c.0.host_id).1 named)

  best_of-cons-ok :
      (host : WorkerHost) (hosts : List WorkerHost) (r : Option RankedHost)
      → best_of ops (host ∷ hosts) ≡ ok r
      → (c : Candidate) × (min_by_key ops host hosts ≡ ok c) × (some (ranked c) ≡ r)
  unfolding best_of
  best_of-cons-ok host hosts r h =
      let (c, e, _) = >>=-eq-ok (min_by_key ops host hosts) _ h in
      (c, e, cc (best_of_min host hosts c e))

  best_of-IsLightest :
      (hosts : List WorkerHost) (r : RankedHost)
      → best_of ops hosts ≡ ok (some r)
      → (c : Candidate) × IsLightest ops hosts c × (ranked c ≡ r)
  best_of-IsLightest [] r h = unfold best_of in cc
  best_of-IsLightest (host ∷ hosts) r h =
      let (c, e, same) = best_of-cons-ok host hosts (some r) h in
      (c, min_by_key-IsLightest ops host hosts c e, cc)

  -- If there is no survivor, no host qualifies.
  pub survivors_of-eq-nil :
      (bundle : TestBundleRequest) (hosts : List WorkerHost)
      → survivors_of bundle hosts ≡ []
      → (host : WorkerHost) → Mem host hosts
      → ¬ Qualifies bundle host
  survivors_of-eq-nil bundle hosts e host m q =
      subst (Mem host) e ((survivors_of_iff bundle host hosts).1 (m, q))

  best_of-eq-none : (hosts : List WorkerHost) → best_of ops hosts ≡ ok none → hosts ≡ []
  best_of-eq-none [] h = refl
  best_of-eq-none (host ∷ hosts) h = let (_, _, differ) = best_of-cons-ok host hosts none h in cc

  -- A selected host is the best of the qualified hosts, returned with its score; and if none is
  -- selected, then none qualifies.
  pub select_host-IsBest :
      (db : Database) (bundle : TestBundleRequest)
      → ((r : RankedHost)
          → select_host ops db bundle ≡ ok (some r)
          → (c : Candidate) × IsBest bundle db.hosts c
            × (c.0.host_id ≡ r.host_id)
            × (c.1 ≡ r.score))
        × (select_host ops db bundle ≡ ok none
            → (host : WorkerHost) → Mem host db.hosts
            → ¬ Qualifies bundle host)
  unfolding select_host
  select_host-IsBest db bundle = (
    λ r h.
        let (c, l, same) = best_of-IsLightest (survivors_of bundle db.hosts) r h in
        (
          c,
          IsLightest→IsBest bundle db.hosts c l,
          ap (λ r. r.host_id) same,
          ap (λ r. r.score) same,
        ),
    λ h. survivors_of-eq-nil bundle db.hosts (best_of-eq-none (survivors_of bundle db.hosts) h),
  )

  -- Over scorable rows the selection never raises.
  pub select_host_total :
      IsLawful ops
      → (db : Database) (bundle : TestBundleRequest) → All IsScorable db.hosts
      → (r : Option RankedHost) × (select_host ops db bundle ≡ ok r)
  unfolding select_host
  select_host_total lawful db bundle v =
      go (survivors_of bundle db.hosts)
        (All-keep IsScorable (λ h. passes_filter h bundle) db.hosts v)
    where
      go :
          (hosts : List WorkerHost)
          → All IsScorable hosts
          → (r : Option RankedHost) × (best_of ops hosts ≡ ok r)
      go [] v = unfold best_of in (none, refl)
      go (host ∷ hosts) v =
          let (c, e) = min_by_key_total ops lawful host hosts v in
          (some (ranked c), best_of_min host hosts c e)
