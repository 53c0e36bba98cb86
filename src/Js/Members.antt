-- ===== src/Js/Members.antt =====
-- Reading a member of a value, writing one of an object, and a value in a template literal.
use forta_node_tr.Prelude.{
  ℕ, ◌+◌, Text, [], ◌∷◌, ◌++◌, Bool, true, false, codes, text_eq, if◌then◌else◌, Result, ok, err,
}
use forta_node_tr.Js.Values.{
  Value, Items, Fields, undefined, null, bool, num, str, arr, obj, nil, cons, end, field,
}
use forta_node_tr.Js.Decimal.{print_nat}

-- What a `throw` carries: an `Error` with its class and message, or any value.
pub data Thrown : Type 0 where
  error : Text → Text → Thrown
  value : Value → Thrown

unfoldable pub lookup_field : Text → Fields → Value
lookup_field k end = undefined
lookup_field k (field j v o) = if text_eq j k then v else lookup_field k o

unfoldable pub set_field : Text → Value → Fields → Fields
set_field k v end = field k v end
set_field k v (field j w o) = if text_eq j k then field j v o else field j w (set_field k v o)

no_member : Text → Text → Thrown
no_member what k =
    error (codes "TypeError")
      (codes "Cannot read properties of " ++ what ++ codes " (reading '" ++ k ++ codes "')")

-- `v.k` for a name that strings, numbers and lists have no member of.
unfoldable pub member : Text → Value → Result Thrown Value
unfolding no_member
member k undefined = err (no_member (codes "undefined") k)
member k null = err (no_member (codes "null") k)
member k (obj o) = ok (lookup_field k o)
member k v = ok undefined

-- `e.k` for what was thrown.
unfoldable pub thrown_member : Text → Thrown → Result Thrown Value
unfolding member
thrown_member k (error name message) = ok (
    if text_eq k (codes "message")
    then str message
    else if text_eq k (codes "name")
    then str name
    else undefined)
thrown_member k (value v) = member k v

-- `${v}`
unfoldable mutual
  unfolding print_nat

  pub template : Value → Text
  template undefined = codes "undefined"
  template null = codes "null"
  template (bool b) = if b then codes "true" else codes "false"
  template (num n) = print_nat n
  template (str s) = s
  template (arr l) = template_items l true
  template (obj o) = codes "[object Object]"

  -- The flag says that nothing was written yet; missing items are empty.
  template_items : Items → Bool → Text
  template_items nil first = []
  template_items (cons v l) first =
      (if first then [] else codes ",") ++ template_item v ++ template_items l false

  template_item : Value → Text
  template_item undefined = []
  template_item null = []
  template_item (bool b) = if b then codes "true" else codes "false"
  template_item (num n) = print_nat n
  template_item (str s) = s
  template_item (arr l) = template_items l true
  template_item (obj o) = codes "[object Object]"

-- The own fields that `{...v}` copies.
index_items : ℕ → Items → Fields
unfolding print_nat
index_items i nil = end
index_items i (cons v l) = field (print_nat i) v (index_items (i + 1) l)

index_units : ℕ → Text → Fields
unfolding print_nat
index_units i [] = end
index_units i (x ∷ s) = field (print_nat i) (str (x ∷ [])) (index_units (i + 1) s)

unfoldable pub spread : Value → Fields
unfolding index_items index_units
spread (obj o) = o
spread (arr l) = index_items 0 l
spread (str s) = index_units 0 s
spread v = end
