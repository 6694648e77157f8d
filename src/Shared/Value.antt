-- ===== src/Shared/Value.antt =====
-- The dynamic values that reach the program's boundaries: broker payloads, form and LDAP input.
-- A `dict` has text keys, as JSON objects have; `object` is a value of any other class.
use test_orch.Base.{Bool, true, false, not, List, [], ◌∷◌, Option, none, some, ◌==◌}
use test_orch.Base.{if◌then◌else◌}
use test_orch.Base.Int.{ℤ, pos, eqb_ℤ}
use test_orch.Base.Float.{Float, fin}
use test_orch.Base.Text.{Text, text_eq, is_empty}
use test_orch.Base.Result.{Result, ok, err, type_error, value_error, ◌>>=◌}

mutual
  pub data Value : Type 0 where
    null : Value
    bool : Bool → Value
    int : ℤ → Value
    float : Float → Value
    str : Text → Value
    list : Items → Value
    dict : Fields → Value
    object : Text → Value

  pub data Items : Type 0 where
    nil : Items
    cons : Value → Items → Items

  pub data Fields : Type 0 where
    end : Fields
    field : Text → Value → Fields → Fields

-- `mapping.get(key)`
abbrev pub get : Fields → Text → Option Value
get end k = none
get (field j v fs) k = let rest = get fs k in if j == k then some v else rest

-- `mapping.get(key, default)`
abbrev pub get_or : Fields → Text → Value → Value
get_or fs k default = elim (get fs k) [ none ↦ default | some v ↦ v ]

-- `key in mapping`
abbrev pub has_key : Fields → Text → Bool
has_key fs k = elim (get fs k) [ none ↦ false | some v ↦ true ]

-- `d[key] = value`
unfoldable pub put : Text → Value → Fields → Fields
put k v end = field k v end
put k v (field j w fs) = if j == k then field j v fs else field j w (put k v fs)

-- `bool(value)`
abbrev pub truth : Value → Bool
truth null = false
truth (bool b) = b
truth (int n) = not (eqb_ℤ n (pos 0))
truth (float (fin k)) = not (eqb_ℤ k (pos 0))
truth (float x) = true
truth (str s) = not (is_empty s)
truth (list nil) = false
truth (list (cons v vs)) = true
truth (dict end) = false
truth (dict (field k v fs)) = true
truth (object name) = true

abbrev chars : Text → Items
chars [] = nil
chars (c ∷ s) = cons (str (c ∷ [])) (chars s)

abbrev keys : Fields → Items
keys end = nil
keys (field k v fs) = cons (str k) (keys fs)

-- `list(value)`
abbrev pub to_list : Value → Result Items
to_list (str s) = ok (chars s)
to_list (list vs) = ok vs
to_list (dict fs) = ok (keys fs)
to_list v = err type_error

-- One item of the argument of `dict(pairs)`. A key that is no text is outside the model.
abbrev put_pair : Items → Fields → Result Fields
put_pair (cons (str k) (cons v nil)) fs = ok (put k v fs)
put_pair (cons k (cons v nil)) fs = err type_error
put_pair vs fs = err value_error

abbrev put_pairs : Items → Fields → Result Fields
put_pairs nil fs = ok fs
put_pairs (cons v vs) fs = do item ← to_list v; fs' ← put_pair item fs; put_pairs vs fs'

-- `dict(value)`
abbrev pub to_dict : Value → Result Fields
to_dict (dict fs) = ok fs
to_dict v = do items ← to_list v; put_pairs items end

-- The texts of a list that holds nothing else.
abbrev pub texts : Items → Option (List Text)
texts nil = some []
texts (cons (str s) vs) = elim (texts vs) [ none ↦ none | some ts ↦ some (s ∷ ts) ]
texts (cons v vs) = none

abbrev pub of_texts : List Text → Items
of_texts [] = nil
of_texts (t ∷ ts) = cons (str t) (of_texts ts)

-- `str(value)`, or an f-string's `{value}`; `show` is for what is no text.
abbrev pub str_of : (Value → Text) → Value → Text
str_of show (str s) = s
str_of show v = show v
