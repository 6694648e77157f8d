-- ===== src/Backend/Routes/Pages/Dashboard.antt =====
-- What the dashboard shows.
use test_orch.Base.{
  ℕ, zero, suc, ◌≡◌, refl, ◌↔◌, ◌⊎◌, inl, inr, ◌≤◌, List, [], ◌∷◌, some, arith, nat_eq, ◌==◌,
  eqb_iff, All, All-of, All-take, All-at, Mem, mem-keep, length, take, length-take-le,
}
use test_orch.Base.Int.{◌≤ℤ◌}
use test_orch.Backend.Models.{User, TestExecution, Database}
use test_orch.Backend.Routes.{runs_page}
use test_orch.Backend.Routes.Pages.{own_runs, dashboard}

-- No run is newer than the ones before it.
abbrev pub NewestFirst : List TestExecution → Type 0
NewestFirst [] = Unit
NewestFirst (x ∷ xs) = All (λ y. y.created_at.micros ≤ℤ x.created_at.micros) xs × NewestFirst xs

-- What the database promises of `ORDER BY created_at DESC`: the same rows, newest first.
pub record Orders (newest_first : List TestExecution → List TestExecution) : Type 0 where
  pub same :
      (runs : List TestExecution) (run : TestExecution) → Mem run (newest_first runs) ↔ Mem run runs
  pub sorted : (runs : List TestExecution) → NewestFirst (newest_first runs)

NewestFirst-take : (n : ℕ) (xs : List TestExecution) → NewestFirst xs → NewestFirst (take n xs)
NewestFirst-take zero xs h = tt
NewestFirst-take (suc n) [] h = tt
NewestFirst-take (suc n) (x ∷ xs) h = (All-take _ n xs h.0, NewestFirst-take n xs h.1)

-- A run that is cut off comes after a full page, all of which is at least as new.
take-full :
    (n : ℕ) (xs : List TestExecution) (run : TestExecution)
    → NewestFirst xs
    → Mem run xs
    → Mem run (take n xs)
      ⊎ ((length (take n xs) ≡ n)
          × All (λ y. run.created_at.micros ≤ℤ y.created_at.micros) (take n xs))
take-full zero xs run h m = inr (refl, tt)
take-full (suc n) [] run h m = elim m [ ]
take-full (suc n) (x ∷ xs) run h (inl e) = inl (inl e)
take-full (suc n) (x ∷ xs) run h (inr m) = elim (take-full n xs run h.1 m) [
  | inl shown ↦ inl (inr shown)
  | inr (full, newer) ↦ inr (omega (arith, full), (All-at _ run xs h.0 m, newer))
]

-- The page of a user.
pub record IsPage (user : User) (db : Database) (runs : List TestExecution) : Type 0 where
  pub own : All (λ run. (run.user_id ≡ user.id) × Mem run db.executions) runs
  pub few : length runs ≤ 50
  pub sorted : NewestFirst runs
  pub complete :
      (run : TestExecution)
      → Mem run db.executions
      → run.user_id ≡ user.id
      → Mem run runs
        ⊎ ((length runs ≡ 50) × All (λ y. run.created_at.micros ≤ℤ y.created_at.micros) runs)

-- If the database orders rows as it promises, then the dashboard of a user shows at most fifty runs,
-- all of them the user's own, newest first, and one of the user's runs is missing only if fifty runs
-- are shown that are at least as new.
pub dashboard-IsPage :
    (newest_first : List TestExecution → List TestExecution) (db : Database) (user : User)
    → Orders newest_first
    → (runs : List TestExecution) × (dashboard newest_first db (some user) ≡ runs_page user runs)
      × IsPage user db runs
unfolding dashboard
dashboard-IsPage newest_first db user o =
    let all_runs = newest_first (own_runs user db.executions) in
    let own_iff = λ (run : TestExecution). mem-keep (λ r. r.user_id == user.id) run db.executions in
    (
      take 50 all_runs,
      refl,
      record {
        own = All-take _ 50 all_runs (
            All-of _ all_runs λ run m.
              let (listed, mine) =
                (own_iff run).0 ((o.same (own_runs user db.executions) run).0 m) in
              ((eqb_iff run.user_id user.id).0 mine, listed));
        few = length-take-le 50 all_runs;
        sorted = NewestFirst-take 50 all_runs (o.sorted (own_runs user db.executions));
        complete = λ run listed mine.
            take-full 50 all_runs run (o.sorted (own_runs user db.executions)) (
              (o.same (own_runs user db.executions) run).1
                ((own_iff run).1 (listed, (eqb_iff run.user_id user.id).1 mine)));
      },
    )
