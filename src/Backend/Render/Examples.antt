-- ===== src/Backend/Render/Examples.antt =====
-- Escaping at concrete inputs.
use test_orch.Base.{◌≡◌, refl}
use test_orch.Base.Text.{text}
use test_orch.Backend.Render.{escape}

escape_run : escape (text "<a&b>") ≡ text "&lt;a&amp;b&gt;"
unfolding escape
escape_run = refl
