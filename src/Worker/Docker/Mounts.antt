-- ===== src/Worker/Docker/Mounts.antt =====
-- What a container that the engine starts can write, and that the engine counts it.
use test_orch.Base.{suc, ◌≡◌, refl, ◌≢◌, true, false, List, [], ◌∷◌, ◌++◌, some, arith, eqb_iff}
use test_orch.Base.Text.{Text, text, text_eq, is_empty, starts_with}
use test_orch.Base.Result.{ok}
use test_orch.Shared.Validation.{require_non_empty_str}
use test_orch.Backend.Effects.{World, Volume, docker_run}
use test_orch.Worker.Machine.{Machine}
use test_orch.Worker.Docker.{
  container_prefix, container_name, check_output, start_test_container, volumes_of, with_volume,
  active_test_container_count,
}

starts_with-append : (prefix s : Text) → starts_with (prefix ++ s) prefix ≡ true
starts_with-append [] s = refl
starts_with-append (c ∷ prefix) s = ground (arith, starts_with-append prefix s, eqb_iff c c)

-- The directories of a run that has results to write.
abbrev pub two_mounts : Text → Text → List Volume
two_mounts config_dir dir =
    record { path = config_dir; bind = text "/config"; mode = text "ro" }
    ∷ record { path = dir; bind = text "/artifacts"; mode = text "rw" }
    ∷ []

volumes_of-two :
    (config_dir dir : Text)
    → is_empty dir ≡ false
    → dir ≢ config_dir
    → volumes_of config_dir (some dir) ≡ two_mounts config_dir dir
unfolding volumes_of with_volume
volumes_of-two config_dir dir there other = ground (arith, text_eq.test_iff config_dir dir)

module _ (m : Machine) (image config_dir test_id dir : Text) where
  -- A start that returns has called Docker once, for the container `test_<id>`, which sees the
  -- configuration at `/config`, read-only, and can write the directory of the results alone; both
  -- directories were there; and the engine counts this container with those that run already. The
  -- directory of the results is not empty and another one than the configuration's.
  pub start_test_container-mounts :
      (w : World) (names : List Text)
      → is_empty dir ≡ false
      → dir ≢ config_dir
      → (start_test_container m image config_dir test_id (some dir) w).0 ≡ ok tt
      → ((start_test_container m image config_dir test_id (some dir) w).1.calls
          ≡ docker_run image
              (text "test_" ++ test_id)
              m.docker_network_mode
              (two_mounts config_dir dir)
              ((text "managed-by", text "test_orch") ∷ (text "test-id", test_id) ∷ [])
            ∷ w.calls)
        × (m.is_dir w.calls config_dir ≡ true)
        × (m.is_dir w.calls dir ≡ true)
        × (active_test_container_count ((text "test_" ++ test_id) ∷ names)
            ≡ suc (active_test_container_count names))
  unfolding start_test_container check_output container_name require_non_empty_str
      active_test_container_count
  start_test_container-mounts w names there other returned = ground (
    arith,
    volumes_of-two config_dir dir there other,
    starts_with-append container_prefix test_id,
  )
