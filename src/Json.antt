-- ===== src/Json.antt =====
-- JSON values as Python has them after parsing. `F` is the type of floating-point numbers.
pub mod Depth
use nova_act.Prelude.{
  ℕ, zero, suc, ◌+◌, ◌==◌, ◌||◌, ◌&&◌, not, leb, Bool, true, false, Option, none, some, List, [],
  ◌∷◌, map, if◌then◌else◌,
}
use nova_act.Prelude.Int.{ℤ, pos, negsuc}
use nova_act.Prelude.Text.{Text, text, text_eq, Dict, insert}
use nova_act.Errors.{Exn, Result, ok, err, plain}
use nova_act.Errors.Classes.{key_error, type_error, index_error, attribute_error}

mutual
  pub data Value (F : Type 0) : Type 0 where
    null : Value F
    bool : Bool → Value F
    int : ℤ → Value F
    float : F → Value F
    str : Text → Value F
    arr : Items F → Value F
    obj : Fields F → Value F

  pub data Items (F : Type 0) : Type 0 where
    nil : Items F
    cons : Value F → Items F → Items F

  pub data Fields (F : Type 0) : Type 0 where
    end : Fields F
    field : Text → Value F → Fields F → Fields F

module _ {F : Type 0} where
  unfoldable pub values : Items F → List (Value F)
  values nil = []
  values (cons v vs) = v ∷ values vs

  unfoldable pub items_of : List (Value F) → Items F
  items_of [] = nil
  items_of (v ∷ vs) = cons v (items_of vs)

  unfoldable pub pairs : Fields F → Dict (Value F)
  pairs end = []
  pairs (field k v fs) = (k, v) ∷ pairs fs

  unfoldable pub fields_of : Dict (Value F) → Fields F
  fields_of [] = end
  fields_of ((k, v) ∷ d) = field k v (fields_of d)

  -- `d.get(key)`, with `none` for a key that is missing.
  unfoldable pub field? : Text → Fields F → Option (Value F)
  unfolding text_eq
  field? key end = none
  field? key (field k v fs) = let rest = field? key fs in if text_eq k key then some v else rest

  -- `v[key]` for a text: only a dictionary has such items.
  unfoldable pub item : Value F → Text → Result (Value F)
  unfolding field?
  item (obj fs) key = elim (field? key fs) [ none ↦ err (plain key_error key) | some v ↦ ok v ]
  item null key = err (plain type_error (text "'NoneType' object is not subscriptable"))
  item (bool b) key = err (plain type_error (text "'bool' object is not subscriptable"))
  item (int n) key = err (plain type_error (text "'int' object is not subscriptable"))
  item (float x) key = err (plain type_error (text "'float' object is not subscriptable"))
  item (str s) key = err (plain type_error (text "string indices must be integers"))
  item (arr vs) key = err (plain type_error (text "list indices must be integers or slices"))

  -- `v[0]`.
  unfoldable pub first_item : Value F → Result (Value F)
  first_item (arr nil) = err (plain index_error (text "list index out of range"))
  first_item (arr (cons v vs)) = ok v
  first_item (str []) = err (plain index_error (text "string index out of range"))
  first_item (str (c ∷ s)) = ok (str (c ∷ []))
  first_item (obj fs) = err (plain key_error (text "0"))
  first_item null = err (plain type_error (text "'NoneType' object is not subscriptable"))
  first_item (bool b) = err (plain type_error (text "'bool' object is not subscriptable"))
  first_item (int n) = err (plain type_error (text "'int' object is not subscriptable"))
  first_item (float x) = err (plain type_error (text "'float' object is not subscriptable"))

  -- `v.get(key, default)`: only a dictionary has the method.
  unfoldable pub get : Value F → Text → Value F → Result (Value F)
  unfolding field?
  get (obj fs) key default = elim (field? key fs) [ none ↦ ok default | some v ↦ ok v ]
  get _ key default = err (plain attribute_error (text "object has no attribute 'get'"))

  -- The elements over which `for x in v` runs: a dictionary's are its keys.
  unfoldable pub iterate : Value F → Result (List (Value F))
  unfolding values pairs
  iterate (arr vs) = ok (values vs)
  iterate (obj fs) = ok (map (λ (p : Text × Value F). str p.0) (pairs fs))
  iterate (str s) = ok (map (λ c. str (c ∷ [])) s)
  iterate _ = err (plain type_error (text "object is not iterable"))

  abbrev pub is_text : Value F → Text → Bool
  is_text (str s) t = text_eq s t
  is_text _ t = false

  abbrev pub is_null : Value F → Bool
  is_null null = true
  is_null _ = false

  abbrev pub is_dict : Value F → Bool
  is_dict (obj fs) = true
  is_dict _ = false

-- What floating-point arithmetic and printing give the modelled code: `float(n)`, which overflows
-- on integers that are too large, `float(s)`, the test against zero, and `str(v)` of the values
-- whose text needs more than a copy.
pub record Numbers (F : Type 0) : Type 0 where
  pub of_int : ℤ → Result F
  pub of_text : Text → Result F
  pub is_zero : F → Bool
  pub print : Value F → Text

module _ {F : Type 0} (numbers : Numbers F) where
  -- `bool(v)`.
  unfoldable pub truthy : Value F → Bool
  truthy null = false
  truthy (bool b) = b
  truthy (int (pos zero)) = false
  truthy (int _) = true
  truthy (float x) = not (numbers.is_zero x)
  truthy (str []) = false
  truthy (str (c ∷ s)) = true
  truthy (arr nil) = false
  truthy (arr (cons v vs)) = true
  truthy (obj end) = false
  truthy (obj (field k v fs)) = true

  -- `float(v)`; a `bool` is an integer.
  unfoldable pub to_float : Value F → Result F
  to_float (bool false) = numbers.of_int (pos 0)
  to_float (bool true) = numbers.of_int (pos 1)
  to_float (int n) = numbers.of_int n
  to_float (float x) = ok x
  to_float (str s) = numbers.of_text s
  to_float _ = err (plain type_error (text "float() argument must be a string or a real number"))

  -- `str(v)`.
  unfoldable pub to_text : Value F → Text
  to_text null = text "None"
  to_text (bool false) = text "False"
  to_text (bool true) = text "True"
  to_text (str s) = s
  to_text v = numbers.print v
