-- ===== src/Backend/Scheduler/Ranking.antt =====
-- The host that `min` picks is the lightest, and ties go to the least host name.
use test_orch.Base.{
  ◌≡◌, refl, ◌∙◌, subst, ◌⊎◌, inl, inr, true, false, List, [], ◌∷◌, arith, All, Mem,
}
use test_orch.Base.Int.{ℤ, pos, leb_ℤ, ◌*ℤ◌}
use test_orch.Base.Float.{
  Float, leb_float, zero_float, eqb_float-eq, ltb_float_trans, ltb_float_irrefl,
}
use test_orch.Base.Text.{Text}
use test_orch.Base.Text.Order.{ltb_text_trans, ltb_text_irrefl}
use test_orch.Base.Result.{ok, >>=-eq-ok}
use test_orch.Backend.Models.{WorkerHost}
use test_orch.Backend.Scheduler.{
  FloatOps, IsLawful, Candidate, ltb_key, lighter, workload_score, min_from, min_by_key,
}

-- A row that the assertions of `_workload_score` let through.
pub record IsScorable (host : WorkerHost) : Type 0 where
  pub active : leb_ℤ (pos 0) host.active_containers ≡ true
  pub cpu : leb_float zero_float host.cpu_utilization ≡ true

times_20_nonneg : (n : ℤ) → leb_ℤ (pos 0) n ≡ true → leb_ℤ (pos 0) (n *ℤ pos 20) ≡ true
unfolding ◌*ℤ◌
times_20_nonneg n h = ground arith

ltb_key_trans :
    (a b c : Float) (s t u : Text)
    → ltb_key a s b t ≡ true
    → ltb_key b t c u ≡ true
    → ltb_key a s c u ≡ true
ltb_key_trans a b c s t u h k = ground (
  arith,
  ltb_text_trans s t u,
  ltb_float_trans a b c,
  ltb_float_trans b a b,
  eqb_float-eq a b,
  eqb_float-eq b c,
  eqb_float-eq a c,
  ltb_float_irrefl a,
  ltb_float_irrefl b,
)

ltb_key_irrefl : (a : Float) (s : Text) → ltb_key a s a s ≡ false
ltb_key_irrefl a s = ground (arith, ltb_text_irrefl s, ltb_float_irrefl a)

module _ (ops : FloatOps) where
  -- The host was scored, and its key is not less than the candidate's.
  abbrev pub NotLighter : Candidate → WorkerHost → Type 0
  NotLighter (best, least) host =
      (score : Float) × (workload_score ops host ≡ ok score)
      × (ltb_key score host.host_id least best.host_id ≡ false)

  NotLighter-lighter :
      (c d : Candidate) (host : WorkerHost) → NotLighter d host → NotLighter (lighter c d) host
  NotLighter-lighter c d host (score, e, h) =
      (score, e, ground (arith, ltb_key_trans score c.1 d.1 host.host_id c.0.host_id d.0.host_id))

  lighter-NotLighter :
      (host : WorkerHost) (score : Float) (d : Candidate)
      → workload_score ops host ≡ ok score
      → NotLighter (lighter (host, score) d) host
  lighter-NotLighter host score d e = (score, e, ground (arith, ltb_key_irrefl score host.host_id))

  -- What the loop of `min` returns when it starts at `d`.
  record IsMin (d : Candidate) (hosts : List WorkerHost) (c : Candidate) : Type 0 where
    least : All (NotLighter c) hosts
    kept : (host : WorkerHost) → NotLighter d host → NotLighter c host
    scored : workload_score ops c.0 ≡ ok c.1
    listed : (c.0 ≡ d.0) ⊎ Mem c.0 hosts

  lighter-scored :
      (host : WorkerHost) (score : Float) (d : Candidate)
      → workload_score ops host ≡ ok score
      → workload_score ops d.0 ≡ ok d.1
      → workload_score ops (lighter (host, score) d).0 ≡ ok (lighter (host, score) d).1
  lighter-scored host score d e k = ground arith

  lighter-cases : (c d : Candidate) → ((lighter c d).0 ≡ c.0) ⊎ ((lighter c d).0 ≡ d.0)
  lighter-cases c d = ground arith

  min_from-IsMin :
      (d : Candidate) (hosts : List WorkerHost) (c : Candidate)
      → workload_score ops d.0 ≡ ok d.1
      → min_from ops d hosts ≡ ok c
      → IsMin d hosts c
  unfolding min_from
  min_from-IsMin d [] c k h =
      let e : d ≡ c = cc in
      subst (IsMin d []) e
        (record { least = tt; kept = λ host p. p; scored = k; listed = inl refl })
  min_from-IsMin d (host ∷ hosts) c k h =
      let (score, e, h') = >>=-eq-ok (workload_score ops host) _ h in
      let ih =
        min_from-IsMin (lighter (host, score) d) hosts c (lighter-scored host score d e k) h' in
      record {
        least = (ih.kept host (lighter-NotLighter host score d e), ih.least);
        kept = λ x p. ih.kept x (NotLighter-lighter (host, score) d x p);
        scored = ih.scored;
        listed = elim ih.listed [
          | inl same ↦ elim (lighter-cases (host, score) d) [
            | inl new ↦ inr (inl (same ∙ new))
            | inr old ↦ inl (same ∙ old)
          ]
          | inr later ↦ inr (inr later)
        ];
      }

  -- `min(hosts, key=…)`: an entry of the list, with its score, and no entry has a lesser key.
  pub record IsLightest (hosts : List WorkerHost) (c : Candidate) : Type 0 where
    pub listed : Mem c.0 hosts
    pub scored : workload_score ops c.0 ≡ ok c.1
    pub least : All (NotLighter c) hosts

  pub min_by_key-IsLightest :
      (host : WorkerHost) (hosts : List WorkerHost) (c : Candidate)
      → min_by_key ops host hosts ≡ ok c
      → IsLightest (host ∷ hosts) c
  unfolding min_by_key
  min_by_key-IsLightest host hosts c h =
      let (score, e, h') = >>=-eq-ok (workload_score ops host) _ h in
      let m = min_from-IsMin (host, score) hosts c e h' in
      record {
        listed = m.listed;
        scored = m.scored;
        least = (m.kept host (score, e, ltb_key_irrefl score host.host_id), m.least);
      }

  module _ (lawful : IsLawful ops) where
    pub workload_score_total :
        (host : WorkerHost)
        → IsScorable host
        → (score : Float) × (workload_score ops host ≡ ok score)
    unfolding workload_score
    workload_score_total host v =
        let n = host.active_containers *ℤ pos 20 in
        let load = lawful.of_int_nonneg n (times_20_nonneg host.active_containers v.active) in
        (
          ops.add (ops.of_int n) host.cpu_utilization,
          rw (v.active, v.cpu, lawful.add_nonneg (ops.of_int n) host.cpu_utilization load v.cpu),
        )

    min_from_total :
        (d : Candidate) (hosts : List WorkerHost)
        → All IsScorable hosts
        → (c : Candidate) × (min_from ops d hosts ≡ ok c)
    unfolding min_from
    min_from_total d [] v = (d, refl)
    min_from_total d (host ∷ hosts) v =
        let (score, e) = workload_score_total host v.0 in
        rw e (min_from_total (lighter (host, score) d) hosts v.1)

    -- The ranking raises on no list of scorable rows.
    pub min_by_key_total :
        (host : WorkerHost) (hosts : List WorkerHost)
        → All IsScorable (host ∷ hosts)
        → (c : Candidate) × (min_by_key ops host hosts ≡ ok c)
    unfolding min_by_key
    min_by_key_total host hosts v =
        let (score, e) = workload_score_total host v.0 in
        rw e (min_from_total (host, score) hosts v.1)
