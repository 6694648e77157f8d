-- ===== src/Backend/Scheduler/Filter.antt =====
-- Which hosts survive the filter.
use test_orch.Base.{
  ◌≡◌, refl, ◌↔◌, Bool, true, List, [], ◌∷◌, arith, All, Mem, contains, contains_iff, all, mem-keep,
  is_nil,
}
use test_orch.Base.Int.{◌<ℤ◌}
use test_orch.Base.Text.{Text, text_eq}
use test_orch.Shared.Schemas.{TestBundleRequest}
use test_orch.Backend.Models.{WorkerHost, tag_set}
use test_orch.Backend.Scheduler.{passes_filter, survivors_of}

-- The four conditions of the placement.
pub record Qualifies (bundle : TestBundleRequest) (host : WorkerHost) : Type 0 where
  pub online : host.is_online ≡ true
  pub spare : host.active_containers <ℤ host.max_containers
  pub emulates : bundle.requires_emulation ≡ true → host.supports_emulation ≡ true
  pub tagged : All (λ t. Mem t (tag_set host)) bundle.required_hw_tags

tagged_iff :
    (host : WorkerHost) (ts : List Text)
    → (all (contains (tag_set host)) ts ≡ true) ↔ All (λ t. Mem t (tag_set host)) ts
tagged_iff host [] = (λ _. tt, λ _. refl)
tagged_iff host (t ∷ ts) = ground (arith, contains_iff (tag_set host) t, tagged_iff host ts)

is_nil-all : (p : Text → Bool) (ts : List Text) → is_nil ts ≡ true → all p ts ≡ true
is_nil-all p [] h = refl
is_nil-all p (t ∷ ts) h = ground arith

passes_filter→Qualifies :
    (host : WorkerHost) (bundle : TestBundleRequest)
    → passes_filter host bundle ≡ true
    → Qualifies bundle host
unfolding passes_filter
passes_filter→Qualifies host bundle h =
    let ts = bundle.required_hw_tags in
    record {
      online = ground arith;
      spare = ground arith;
      emulates = λ needed. ground arith;
      tagged = (tagged_iff host ts).0 (ground (arith, is_nil-all (contains (tag_set host)) ts));
    }

Qualifies→passes_filter :
    (host : WorkerHost) (bundle : TestBundleRequest)
    → Qualifies bundle host
    → passes_filter host bundle ≡ true
unfolding passes_filter
Qualifies→passes_filter host bundle q =
    ground (arith, (tagged_iff host bundle.required_hw_tags).1 q.tagged)

-- A host survives the filter for a bundle exactly if it is online, runs fewer containers than it
-- may, emulates if the bundle needs that, and carries every tag that the bundle needs.
pub passes_filter_iff :
    (host : WorkerHost) (bundle : TestBundleRequest)
    → (passes_filter host bundle ≡ true) ↔ Qualifies bundle host
passes_filter_iff host bundle =
    (passes_filter→Qualifies host bundle, Qualifies→passes_filter host bundle)

-- The survivors are the rows that qualify.
pub survivors_of_iff :
    (bundle : TestBundleRequest) (host : WorkerHost) (hosts : List WorkerHost)
    → Mem host (survivors_of bundle hosts) ↔ (Mem host hosts × Qualifies bundle host)
survivors_of_iff bundle host hosts =
    let (to, from) = mem-keep (λ h. passes_filter h bundle) host hosts in
    (
      λ m. ((to m).0, passes_filter→Qualifies host bundle (to m).1),
      λ (m, q). from (m, Qualifies→passes_filter host bundle q),
    )
