-- ===== src/Backend/Render/Row.antt =====
-- backend/services/status_render.py: the table row of one host's reply.
use mathlib.Core.List.{append_assoc}
use test_orch.Base.{ℕ, ◌≡◌, ap, ◌∙◌, true, false, List, [], ◌∷◌, ◌++◌, Option, none, some}
use test_orch.Base.Int.{ℤ, pos}
use test_orch.Base.Float.{Float}
use test_orch.Base.Text.{Text, text, text_eq}
use test_orch.Base.Result.{Result, ok, err, value_error, type_error, attribute_error, ◌>>=◌}
use test_orch.Shared.Value.{Value, bool, int, float, str, dict, Fields, get_or, str_of}
use test_orch.Shared.HostStats.{HostStats, to_dict}
use test_orch.Backend.Render.{escape}

-- The parts of Python that the row stands on. `loads` answers `none` for what is no JSON; `fixed d` is
-- the format `.df` of a float, `fixed_int d` that of an integer, which may be too large; `show` is
-- `str` of what is no text.
pub record Python : Type 0 where
  pub dumps : Fields → Text
  pub loads : Text → Option Value
  pub fixed : ℕ → Float → Text
  pub fixed_int : ℕ → ℤ → Result Text
  pub show : Value → Text

module _ (py : Python) where
  -- `f"{value:.df}"`
  abbrev format_fixed : ℕ → Value → Result Text
  format_fixed d (float x) = ok (py.fixed d x)
  format_fixed d (int n) = py.fixed_int d n
  format_fixed d (bool true) = py.fixed_int d (pos 1)
  format_fixed d (bool false) = py.fixed_int d (pos 0)
  format_fixed d (str s) = err value_error
  format_fixed d v = err type_error

  -- `s.get(key, 0)`, formatted.
  abbrev number : ℕ → Fields → Text → Result Text
  number d s key = format_fixed d (get_or s key (int (pos 0)))

  status_row : Value → Result Text
  unfolding escape
  status_row (dict s) = do
    let name = str_of py.show (get_or s (text "host_id") (str (text "?")))
    cpu ← number 1 s (text "cpu_percent")
    ram ← number 1 s (text "ram_available_mb")
    ram_total ← number 0 s (text "ram_total_mb")
    disk ← number 2 s (text "disk_available_gb")
    disk_total ← number 0 s (text "disk_total_gb")
    let users = str_of py.show (get_or s (text "active_users") (int (pos 0)))
    ok (
        text "<tbody id=\"host-status-results\" hx-swap-oob=\"beforeend\">"
        ++ (text "<tr>"
            ++ (text "<td>"
                ++ (escape name
                    ++ (text "</td>"
                        ++ (text "<td>"
                            ++ (cpu
                                ++ (text "</td>"
                                    ++ (text "<td>"
                                        ++ (ram
                                            ++ (text " / "
                                                ++ (ram_total
                                                    ++ (text "</td>"
                                                        ++ (text "<td>"
                                                            ++ (disk
                                                            ++ (text " / "
                                                            ++ (disk_total
                                                            ++ (text "</td>"
                                                            ++ (text "<td>"
                                                            ++ (users
                                                            ++ (text "</td>"
                                                            ++ text
                                                            "</tr></tbody>")))))))))))))))))))))
  status_row v = err attribute_error

  -- `except json.JSONDecodeError: return ""`
  abbrev render_parsed : Option Value → Result Text
  render_parsed none = ok []
  render_parsed (some s) = status_row s

  unfoldable pub render_status_row : Text → Result Text
  unfolding status_row
  render_status_row body = render_parsed (py.loads body)

  -- A table of one row, by its cells.
  abbrev cells : List Text → Text
  cells [] = text "</tr></tbody>"
  cells (c ∷ cs) = text "<td>" ++ (c ++ (text "</td>" ++ cells cs))

  abbrev pub row_of : List Text → Text
  row_of cs =
      text "<tbody id=\"host-status-results\" hx-swap-oob=\"beforeend\">"
      ++ (text "<tr>" ++ cells cs)

  -- The row of a snapshot, column by column.
  abbrev pub row_for : HostStats → Text
  row_for s = row_of (
      escape s.host_id
      ∷ py.fixed 1 s.cpu_percent
      ∷ (py.fixed 1 s.ram_available_mb ++ (text " / " ++ py.fixed 0 s.ram_total_mb))
      ∷ (py.fixed 2 s.disk_available_gb ++ (text " / " ++ py.fixed 0 s.disk_total_gb))
      ∷ py.show (int s.active_users)
      ∷ [])

  status_row_lem : (s : HostStats) → status_row (dict (to_dict s)) ≡ ok (row_for s)
  unfolding status_row to_dict text_eq
  status_row_lem s = simp append_assoc

  -- The reply of a worker is rendered as the row of its snapshot, column by column, with the host's
  -- name escaped, if the JSON of the reply reads back as it was written.
  pub render_status_row-to_dict :
      (s : HostStats)
      → py.loads (py.dumps (to_dict s)) ≡ some (dict (to_dict s))
      → render_status_row (py.dumps (to_dict s)) ≡ ok (row_for s)
  unfolding render_status_row
  render_status_row-to_dict s h = ap render_parsed h ∙ status_row_lem s
