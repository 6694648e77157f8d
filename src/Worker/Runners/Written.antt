-- ===== src/Worker/Runners/Written.antt =====
-- What a runner writes for its framework.
use test_orch.Base.{
  ℕ, ◌≡◌, refl, ap, Bool, true, not, all, eqb, List, [], ◌∷◌, ◌++◌, map, none, arith, All,
}
use test_orch.Base.Int.{ℤ}
use test_orch.Base.Text.{Text, text, split, join}
use test_orch.Base.Text.Commas.{split-join}
use test_orch.Base.Result.{ok}
use test_orch.Shared.Value.{Value, str, list, of_texts, get_or, nil}
use test_orch.Backend.Effects.{World, Event, make_dirs, write_json, write_text}
use test_orch.Worker.Machine.{Machine, path_join}
use test_orch.Worker.Runners.{
  robot, Runner, pytest_config, include_lines, robot_lines, config_dir, write_file, write_with,
  write_robot, write_config,
}

-- The run's directory, and the files in it.
abbrev pub dir_of : Machine → Runner → Text
dir_of m r = path_join m.test_runs_dir r.test_id

abbrev pub written : Machine → Runner → ℤ → Event
written m r n =
    write_json (path_join (dir_of m r) (text "pytest_config.json")) (pytest_config r.variables n)

abbrev pub args_written : Machine → Runner → Text → Event
args_written m r content = write_text (path_join (dir_of m r) (text "robot.args")) content

module _ (show : Value → Text) (m : Machine)
    (calm : (calls : List Event) (event : Event) → m.env calls event ≡ none) where
  include_lines-of_texts :
      (tags : List Text)
      → include_lines show (of_texts tags) ≡ map (λ t. text "--include " ++ t) tags
  include_lines-of_texts [] = refl
  include_lines-of_texts (t ∷ tags) =
      ap (λ ts. (text "--include " ++ t) ∷ ts) (include_lines-of_texts tags)

  all-append : (p : ℕ → Bool) (s t : Text) → all p s ≡ true → all p t ≡ true → all p (s ++ t) ≡ true
  all-append p [] t h k = k
  all-append p (c ∷ s) t h k = ground (arith, all-append p s t)

  single_lines :
      (tags : List Text)
      → All (λ t. all (λ c. not (eqb c b'\n')) t ≡ true) tags
      → All (λ t. all (λ c. not (eqb c b'\n')) t ≡ true) (map (λ t. text "--include " ++ t) tags)
  single_lines [] h = tt
  single_lines (t ∷ tags) h = (all-append _ (text "--include ") t refl h.0, single_lines tags h.1)

  -- If no file operation fails, the robot runner writes one argument to a line: the lines of the file
  -- are the variable for the device and then each tag, in order, if none of them breaks the line.
  pub write_config-robot :
      (r : Runner) (w : World) (dut : Text) (tags : List Text)
      → r.framework ≡ robot
      → get_or r.variables (text "target_dut") (str []) ≡ str dut
      → get_or r.variables (text "include_tags") (list nil) ≡ list (of_texts tags)
      → All (λ t. all (λ c. not (eqb c b'\n')) t ≡ true) (dut ∷ tags)
      → (content : Text) × (split b'\n' content
          ≡ (text "--variable DUT:" ++ dut) ∷ map (λ t. text "--include " ++ t) tags)
        × (write_config show m r w ≡ (
          ok (dir_of m r),
          record w {
            calls =
                make_dirs (dir_of m r)
                ∷ args_written m r content
                ∷ make_dirs (dir_of m r)
                ∷ w.calls;
          },
        ))
  unfolding write_config write_with write_robot config_dir write_file robot_lines
  write_config-robot r w dut tags e dutted tagged single =
      let head : Text = text "--variable DUT:" ++ dut in
      let rest = map (λ (t : Text). text "--include " ++ t) tags in
      let content = join (text "\n") (head ∷ rest) in
      (
        content,
        split-join b'\n' head rest
            (all-append _ (text "--variable DUT:") dut refl single.0, single_lines tags single.1),
        ground (
          arith,
          e,
          dutted,
          tagged,
          include_lines-of_texts tags,
          calm w.calls (make_dirs (dir_of m r)),
          calm (make_dirs (dir_of m r) ∷ w.calls) (args_written m r content),
          calm (args_written m r content ∷ make_dirs (dir_of m r) ∷ w.calls)
              (make_dirs (dir_of m r)),
        ),
      )
