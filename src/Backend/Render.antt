-- ===== src/Backend/Render.antt =====
-- backend/services/status_render.py: HTML fragments for the admin page.
pub mod Escape
pub mod Row
mod Examples
use test_orch.Base.{ℕ, ◌-◌, Bool, true, false, List, [], ◌∷◌, ◌++◌, leb, eqb, if◌then◌else◌}
use test_orch.Base.Text.{Text, text, replace}
use test_orch.Base.Decimal.{decimal}

unfoldable pub escape : Text → Text
unfolding replace
escape s = replace b'>' (text "&gt;") (replace b'<' (text "&lt;") (replace b'&' (text "&amp;") s))

-- The message of the sentinel, and its CSS class.
unfoldable pub sentinel_parts : ℕ → ℕ → Text × Text
unfolding decimal
sentinel_parts received total =
    if eqb total 0
    then (text "No worker hosts registered to poll.", text "sentinel-empty")
    else if leb total received
    then (text "All " ++ (decimal total ++ text " runner(s) responded."), text "sentinel-ok")
    else (
      text "Polling complete - "
          ++ (decimal received
              ++ (text " of "
                  ++ (decimal total
                      ++ (text " runner(s) responded ("
                          ++ (decimal (total - received) ++ text " did not respond in time)."))))),
      text "sentinel-warn",
    )

unfoldable pub render_sentinel : ℕ → ℕ → Text
unfolding sentinel_parts
render_sentinel received total =
    let (msg, css) = sentinel_parts received total in
    text "<div id=\"poll-sentinel\" hx-swap-oob=\"innerHTML\">"
    ++ (text "<span class=\"" ++ (css ++ (text "\">" ++ (msg ++ text "</span></div>"))))
