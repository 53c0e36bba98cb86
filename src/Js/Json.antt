-- ===== src/Js/Json.antt =====
-- `JSON.stringify(v)`: undefined has no JSON text, is dropped from objects and is null in lists.
use forta_node_tr.Js.Values.{
  Value, Items, Fields, undefined, null, bool, num, str, arr, obj, nil, cons, end, field,
}
use forta_node_tr.Js.Decimal.{print_nat}
use forta_node_tr.Prelude.{
  ℕ, ◌+◌, ◌-◌, ◌/◌, ◌%◌, Text, [], ◌∷◌, ◌++◌, Bool, true, false, ◌&&◌, ◌||◌, Option, none, some,
  codes, ltb, leb, ◌==◌, if◌then◌else◌, ◌≡◌, refl,
}

abbrev hex_digit : ℕ → ℕ
hex_digit d = if ltb d 10 then b'0' + d else b'a' + (d - 10)

unicode_escape : ℕ → Text
unicode_escape c =
    b'\\'
    ∷ b'u'
    ∷ hex_digit (c / 4096)
    ∷ hex_digit (c / 256 % 16)
    ∷ hex_digit (c / 16 % 16)
    ∷ hex_digit (c % 16)
    ∷ []

-- One code unit inside the quotes, a surrogate apart.
quote_unit : ℕ → Text
unfolding unicode_escape
quote_unit c =
    if c == b'"'
    then codes "\\\""
    else if c == b'\\'
    then codes "\\\\"
    else if c == 8
    then codes "\\b"
    else if c == 9
    then codes "\\t"
    else if c == 10
    then codes "\\n"
    else if c == 12
    then codes "\\f"
    else if c == 13
    then codes "\\r"
    else if ltb c 32
    then unicode_escape c
    else c ∷ []

abbrev is_high : ℕ → Bool
is_high c = leb 0xd800 c && leb c 0xdbff

abbrev is_low : ℕ → Bool
is_low c = leb 0xdc00 c && leb c 0xdfff

-- The first argument says that the unit before was the high half of a pair.
quote_from : Bool → Text → Text
unfolding quote_unit unicode_escape
quote_from paired [] = []
quote_from true (c ∷ s) = c ∷ quote_from false s
quote_from false (c ∷ []) = if is_high c || is_low c then unicode_escape c else quote_unit c
quote_from false (c ∷ d ∷ s) =
    let pair = is_high c && is_low d in
    (if pair then c ∷ [] else if is_high c || is_low c then unicode_escape c else quote_unit c)
    ++ quote_from pair (d ∷ s)

quote : Text → Text
unfolding quote_from
quote s = b'"' ∷ (quote_from false s ++ codes "\"")

unfoldable mutual
  unfolding quote print_nat

  pub stringify : Value → Option Text
  stringify undefined = none
  stringify null = some (codes "null")
  stringify (bool b) = some (if b then codes "true" else codes "false")
  stringify (num n) = some (print_nat n)
  stringify (str s) = some (quote s)
  stringify (arr l) = some (b'[' ∷ (stringify_items l true ++ codes "]"))
  stringify (obj o) = some (b'{' ∷ (stringify_fields o true ++ codes "}"))

  -- The flag says that nothing was written yet.
  stringify_items : Items → Bool → Text
  stringify_items nil first = []
  stringify_items (cons v l) first =
      (if first then [] else codes ",")
      ++ (elim (stringify v) [ some t ↦ t | none ↦ codes "null" ])
      ++ stringify_items l false

  stringify_fields : Fields → Bool → Text
  stringify_fields end first = []
  stringify_fields (field k v o) first =
      let rest = stringify_fields o in
      elim (stringify v) [
        | some t ↦ (if first then [] else codes ",") ++ quote k ++ (b':' ∷ t) ++ rest false
        | none ↦ rest first
      ]

stringify_sample :
    stringify (
      obj (
        field
          (codes "a\n")
          (arr (cons (num 12) (cons undefined nil)))
          (field (codes "b") undefined end)))
    ≡ some (codes "{\"a\\n\":[12,null]}")
unfolding stringify
stringify_sample = refl
