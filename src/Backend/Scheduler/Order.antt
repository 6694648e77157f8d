-- ===== src/Backend/Scheduler/Order.antt =====
-- The selection does not depend on the order in which the database returns the rows.
use test_orch.Base.{
  ◌≡◌, refl, sym, ap, subst, ◌∙◌, ◌↔◌, true, false, List, Option, none, some, arith, All, Mem,
}
use test_orch.Base.Float.{
  Float, nan, ninf, fin, pinf, eqb_float, leb_float, zero_float, ltb_float_total, eqb_float-eq,
}
use test_orch.Base.Text.{Text}
use test_orch.Base.Text.Order.{ltb_text_total}
use test_orch.Base.Result.{ok}
use test_orch.Shared.Schemas.{TestBundleRequest}
use test_orch.Backend.Models.{WorkerHost, Database}
use test_orch.Backend.Scheduler.{
  FloatOps, IsLawful, Candidate, RankedHost, ltb_key, workload_score, select_host,
}
use test_orch.Backend.Scheduler.Ranking.{IsScorable}
use test_orch.Backend.Scheduler.Selection.{IsBest, select_host-IsBest, select_host_total}

-- The same rows, in whatever order and however often.
abbrev pub SameRows : List WorkerHost → List WorkerHost → Type 0
SameRows xs ys = (host : WorkerHost) → Mem host xs ↔ Mem host ys

eqb_float_self : (a : Float) → leb_float zero_float a ≡ true → eqb_float a a ≡ true
unfolding eqb_float leb_float
eqb_float_self nan h = ground arith
eqb_float_self ninf h = ground arith
eqb_float_self (fin k) h = ground arith
eqb_float_self pinf h = ground arith

ltb_key_total :
    (a b : Float) (s t : Text)
    → leb_float zero_float a ≡ true
    → leb_float zero_float b ≡ true
    → ltb_key a s b t ≡ false
    → ltb_key b t a s ≡ false
    → (a ≡ b) × (s ≡ t)
ltb_key_total a b s t h k p q = ground (
  arith,
  eqb_float-eq a b,
  eqb_float-eq b a,
  eqb_float_self a h,
  ltb_float_total a b h k,
  ltb_text_total s t,
)

module _ (ops : FloatOps) where
  score_nonneg :
      (host : WorkerHost) (score : Float)
      → workload_score ops host ≡ ok score
      → leb_float zero_float score ≡ true
  unfolding workload_score
  score_nonneg host score h = ground arith

  IsBest-unique :
      (bundle : TestBundleRequest) (xs ys : List WorkerHost) (c d : Candidate)
      → SameRows xs ys
      → IsBest ops bundle xs c
      → IsBest ops bundle ys d
      → (c.1 ≡ d.1) × (c.0.host_id ≡ d.0.host_id)
  IsBest-unique bundle xs ys c d same b b' =
      let (score, e, h) = b.least d.0 ((same d.0).1 b'.listed) b'.qualifies in
      let (score', e', h') = b'.least c.0 ((same c.0).0 b.listed) b.qualifies in
      let first : score ≡ d.1 = cc (b'.scored) in
      let second : score' ≡ c.1 = cc (b.scored) in
      ltb_key_total c.1 d.1 c.0.host_id d.0.host_id (score_nonneg c.0 c.1 b.scored)
        (score_nonneg d.0 d.1 b'.scored)
        (subst (λ x. ltb_key x c.0.host_id d.1 d.0.host_id ≡ false) second h')
        (subst (λ x. ltb_key x d.0.host_id c.1 c.0.host_id ≡ false) first h)

  agree :
      (xs ys : Database) (bundle : TestBundleRequest) (r r' : Option RankedHost)
      → SameRows xs.hosts ys.hosts
      → select_host ops xs bundle ≡ ok r
      → select_host ops ys bundle ≡ ok r'
      → r ≡ r'
  agree xs ys bundle none none same h k = refl
  agree xs ys bundle none (some r') same h k =
      let (d, b, _, _) = (select_host-IsBest ops ys bundle).0 r' k in
      absurd ((select_host-IsBest ops xs bundle).1 h d.0 ((same d.0).1 b.listed) b.qualifies)
  agree xs ys bundle (some r) none same h k =
      let (c, b, _, _) = (select_host-IsBest ops xs bundle).0 r h in
      absurd ((select_host-IsBest ops ys bundle).1 k c.0 ((same c.0).0 b.listed) b.qualifies)
  agree xs ys bundle (some r) (some r') same h k =
      let (c, b, named, scored) = (select_host-IsBest ops xs bundle).0 r h in
      let (d, b', named', scored') = (select_host-IsBest ops ys bundle).0 r' k in
      let (scores, names) = IsBest-unique bundle xs.hosts ys.hosts c d same b b' in cc

  -- The selection returns the same host with the same score on two tables that hold the same rows,
  -- in whatever order, if their counts and loads are at least zero and the float operations are
  -- lawful.
  pub select_host-SameRows :
      (xs ys : Database) (bundle : TestBundleRequest)
      → IsLawful ops
      → All IsScorable xs.hosts
      → All IsScorable ys.hosts
      → SameRows xs.hosts ys.hosts
      → select_host ops xs bundle ≡ select_host ops ys bundle
  select_host-SameRows xs ys bundle lawful v v' same =
      let (r, h) = select_host_total ops lawful xs bundle v in
      let (r', k) = select_host_total ops lawful ys bundle v' in
      h ∙ ap ok (agree xs ys bundle r r' same h k) ∙ sym k
