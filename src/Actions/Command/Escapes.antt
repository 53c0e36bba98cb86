-- ===== src/Actions/Command/Escapes.antt =====
-- The escapes of workflow commands (escapeData and escapeProperty of the toolkit's command.js in
-- .github/actions/propose/dist/index.js) against the decoding of `%25`, `%0D`, `%0A`, `%3A`, `%2C`.
use forta_node_tr.Prelude.{
  ℕ, Text, [], ◌∷◌, ◌++◌, append_assoc, Option, none, some, codes, replace_all, ◌==◌, if◌then◌else◌,
  ◌≡◌, ◌≢◌, refl, arith, All, All-append, ◌&&◌,
}
use forta_node_tr.Js.{Value}
use forta_node_tr.Actions.Command.{to_command_value, escape_data, escape_property}

-- The code unit that `%` with these two units stands for.
abbrev reveal : ℕ → ℕ → Option ℕ
reveal y z =
    if (y == b'2') && (z == b'5')
    then some b'%'
    else if (y == b'0') && (z == b'D')
    then some 13
    else if (y == b'0') && (z == b'A')
    then some 10
    else if (y == b'3') && (z == b'A')
    then some b':'
    else if (y == b'2') && (z == b'C')
    then some b','
    else none

-- The text that an escaped text stands for; a `%` that begins no escape stands for itself.
pub unescape : Text → Text
unescape [] = []
unescape (x ∷ []) = x ∷ []
unescape (x ∷ y ∷ []) = x ∷ y ∷ []
unescape (x ∷ y ∷ z ∷ s) =
    let copied = x ∷ unescape (y ∷ z ∷ s) in
    let rest = unescape s in
    if x == b'%' then elim (reveal y z) [ some c ↦ c ∷ rest | none ↦ copied ] else copied

-- One code unit of a message, and of a property's value.
hide : ℕ → Text
hide c =
    if c == b'%'
    then codes "%25"
    else if c == 13
    then codes "%0D"
    else if c == 10
    then codes "%0A"
    else c ∷ []

hide_property : ℕ → Text
unfolding hide
hide_property c = if c == b':' then codes "%3A" else if c == b',' then codes "%2C" else hide c

hide_all : (ℕ → Text) → Text → Text
hide_all f [] = []
hide_all f (x ∷ s) = f x ++ hide_all f s

replace_all-append :
    (c : ℕ) (w s t : Text) → replace_all c w (s ++ t) ≡ replace_all c w s ++ replace_all c w t
unfolding replace_all
replace_all-append c w [] t = refl
replace_all-append c w (x ∷ s) t = rw (replace_all-append c w s t, append_assoc)

replace_all-cons :
    (c : ℕ) (w : Text) (x : ℕ) (s : Text)
    → replace_all c w (x ∷ s) ≡ (if x == c then w else x ∷ []) ++ replace_all c w s
unfolding replace_all
replace_all-cons c w x s = refl

abbrev passes : Text → Text
passes s =
    replace_all 10 (codes "%0A") (replace_all 13 (codes "%0D") (replace_all b'%' (codes "%25") s))

abbrev passes_property : Text → Text
passes_property s = replace_all b',' (codes "%2C") (replace_all b':' (codes "%3A") (passes s))

hide_passes :
    (x : ℕ)
    → replace_all 10
        (codes "%0A")
        (replace_all 13 (codes "%0D") (if x == b'%' then codes "%25" else x ∷ []))
      ≡ hide x
unfolding hide replace_all
hide_passes x = ground arith

hide_property_passes :
    (x : ℕ)
    → replace_all b',' (codes "%2C") (replace_all b':' (codes "%3A") (hide x)) ≡ hide_property x
unfolding hide_property replace_all
hide_property_passes x = ground arith

-- The passes over the whole text make one substitution of each unit.
passes-hide_all : (s : Text) → passes s ≡ hide_all hide s
unfolding hide_all
passes-hide_all [] = unfold replace_all in refl
passes-hide_all (x ∷ s) = rw (
  replace_all-cons b'%',
  replace_all-append 13,
  replace_all-append 10,
  hide_passes,
  passes-hide_all s,
)

property_passes-hide_all :
    (s : Text)
    → replace_all b',' (codes "%2C") (replace_all b':' (codes "%3A") (hide_all hide s))
      ≡ hide_all hide_property s
unfolding hide_all
property_passes-hide_all [] = unfold replace_all in refl
property_passes-hide_all (x ∷ s) = rw (
  replace_all-append b':',
  replace_all-append b',',
  hide_property_passes,
  property_passes-hide_all s,
)

passes_property-hide_all : (s : Text) → passes_property s ≡ hide_all hide_property s
passes_property-hide_all s = rw (passes-hide_all s) (property_passes-hide_all s)

-- A unit that is no `%` is copied, whatever follows.
unescape-cons : (x : ℕ) (t : Text) → x ≢ b'%' → unescape (x ∷ t) ≡ x ∷ unescape t
unfolding unescape
unescape-cons x [] h = refl
unescape-cons x (y ∷ []) h = refl
unescape-cons x (y ∷ z ∷ t) h = ground arith

unescape-hide : (x : ℕ) (t : Text) → unescape (hide x ++ t) ≡ x ∷ unescape t
unfolding hide unescape
unescape-hide x t = ground (arith, unescape-cons x t)

unescape-hide_property : (x : ℕ) (t : Text) → unescape (hide_property x ++ t) ≡ x ∷ unescape t
unfolding hide_property unescape
unescape-hide_property x t = ground (arith, unescape-cons x t)

unescape-hide_all :
    (f : ℕ → Text)
    → ((x : ℕ) (t : Text) → unescape (f x ++ t) ≡ x ∷ unescape t)
    → (s : Text) → unescape (hide_all f s) ≡ s
unfolding hide_all
unescape-hide_all f h [] = unfold unescape in refl
unescape-hide_all f h (x ∷ s) = rw (h x (hide_all f s), unescape-hide_all f h s)

-- Decoding an escaped message gives back the text of its value, whatever the value.
pub unescape-escape_data : (v : Value) → unescape (escape_data v) ≡ to_command_value v
unfolding escape_data
unescape-escape_data v =
    rw (passes-hide_all (to_command_value v))
      (unescape-hide_all hide unescape-hide (to_command_value v))

-- Decoding an escaped property value gives back the text of the value, whatever the value.
pub unescape-escape_property : (v : Value) → unescape (escape_property v) ≡ to_command_value v
unfolding escape_property
unescape-escape_property v =
    rw (passes_property-hide_all (to_command_value v))
      (unescape-hide_all hide_property unescape-hide_property (to_command_value v))

All-hide_all {ℓ} :
    (P : ℕ → Type ℓ) (f : ℕ → Text) → ((x : ℕ) → All P (f x)) → (s : Text) → All P (hide_all f s)
unfolding hide_all
All-hide_all P f h [] = tt
All-hide_all P f h (x ∷ s) = All-append P (f x) (hide_all f s) (h x) (All-hide_all P f h s)

-- What an escaped message holds no unit of.
abbrev pub IsInline : ℕ → Type 0
IsInline x = (x ≢ 10) × (x ≢ 13)

-- What an escaped property value holds no unit of.
abbrev pub IsPropertyUnit : ℕ → Type 0
IsPropertyUnit x = (x ≢ 10) × (x ≢ 13) × (x ≢ b':') × (x ≢ b',')

hide-IsInline : (x : ℕ) → All IsInline (hide x)
unfolding hide
hide-IsInline x = ground arith

hide_property-IsPropertyUnit : (x : ℕ) → All IsPropertyUnit (hide_property x)
unfolding hide_property
hide_property-IsPropertyUnit x = ground arith

-- An escaped message stays on one line: it holds no line feed and no carriage return.
pub escape_data-IsInline : (v : Value) → All IsInline (escape_data v)
unfolding escape_data
escape_data-IsInline v =
    rw (passes-hide_all (to_command_value v))
      (All-hide_all IsInline hide hide-IsInline (to_command_value v))

-- An escaped property value holds no line end, and no colon or comma that could end it.
pub escape_property-IsPropertyUnit : (v : Value) → All IsPropertyUnit (escape_property v)
unfolding escape_property
escape_property-IsPropertyUnit v =
    rw (passes_property-hide_all (to_command_value v))
      (All-hide_all IsPropertyUnit hide_property hide_property-IsPropertyUnit (to_command_value v))
