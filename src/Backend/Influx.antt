-- ===== src/Backend/Influx.antt =====
-- backend/services/influx_client.py: the store of full logs.
use test_orch.Base.{ℕ, suc, List, ◌++◌}
use test_orch.Base.Int.{ℤ, pos, negsuc}
use test_orch.Base.Text.{Text, text}
use test_orch.Base.Decimal.{decimal}
use test_orch.Base.Result.{Result, ok, err, type_error, value_error}
use test_orch.Shared.Value.{Value, int, str}
use test_orch.Shared.Validation.{require_non_empty_str, require_positive_int}
use test_orch.Backend.Effects.{
  Environment, Action, pure, lift, call, influx_close, influx_write, influx_query, ◌>>=◌, ◌>>◌,
}

-- The test on `line_no`: an `int`, no `bool`, that is at least zero.
abbrev line_index : Value → Result ℕ
line_index (int (pos n)) = ok n
line_index v = err value_error

abbrev content_of : Value → Result Text
content_of (str s) = ok s
content_of v = err type_error

-- `limit` as the query spells it; the guard has made it positive.
abbrev digits : ℤ → Text
digits (pos n) = decimal n
digits (negsuc n) = text "-" ++ decimal (suc n)

-- The query, line by line. The identifier is put in as it is.
abbrev pub flux_for : Text → Text → ℤ → Text
flux_for bucket test_id limit =
    text "\n        from(bucket: \""
    ++ (bucket
        ++ (text
              "\")\n          |> range(start: -30d)\n          |> filter(fn: (r) => r._measurement == \"test_log\")\n          |> filter(fn: (r) => r.test_id == \""
            ++ (test_id
                ++ (text
                      "\")\n          |> pivot(rowKey: [\"_time\"], columnKey: [\"_field\"], valueColumn: \"_value\")\n          |> sort(columns: [\"line_no\"])\n          |> limit(n: "
                    ++ (digits limit ++ text ")\n        ")))))

module _ (env : Environment) where
  abbrev pub close : Action (Unit {0})
  close = call env influx_close

  unfoldable pub write_line : Value → Value → Value → Action (Unit {0})
  write_line test_id line_no content = do
    id ← lift (require_non_empty_str test_id)
    n ← lift (line_index line_no)
    line ← lift (content_of content)
    call env (influx_write id n line)

  -- `stored` is what the answer's records hold as `content`.
  unfoldable pub read_lines : Text → List Text → Value → Value → Action (List Text)
  read_lines bucket stored test_id limit = do
    id ← lift (require_non_empty_str test_id)
    n ← lift (require_positive_int limit)
    call env (influx_query (flux_for bucket id n))
    pure stored
