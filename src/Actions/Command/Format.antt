-- ===== src/Actions/Command/Format.antt =====
-- A reader of the documented format of workflow commands, `::name key=value,key=value::message`, and
-- the text that Command.toString of the toolkit writes (.github/actions/propose/dist/index.js).
use forta_node_tr.Prelude.{
  ℕ, Text, Dict, List, [], ◌∷◌, ◌++◌, append_assoc, append-nil, true, false, codes, ltb_zero,
  length, if◌then◌else◌, ◌≡◌, ◌≢◌, sym, All, Bool-cases, inl, inr, join, join_behind, split,
  break_at, drop,
}
use mathlib.Core.List.{map}
use forta_node_tr.Js.{Value, truthy}
use forta_node_tr.Actions.Command.{
  Command, to_command_value, escape_data, escape_property, write_properties, to_string,
}
use forta_node_tr.Actions.Command.Escapes.{unescape}

-- The reader: the text after `::` up to the next colon names the command and its properties.
unfoldable pub read_property : Text → Text × Text
read_property s = let (key, val) = break_at b'=' s in (key, unescape val)

unfoldable pub read_properties : Text → List (Text × Text)
unfolding read_property
read_properties [] = []
read_properties (x ∷ s) = map read_property (split b',' (x ∷ s))

unfoldable pub read_head : Text → Text × List (Text × Text)
unfolding read_properties
read_head head = let (name, props) = break_at b' ' head in (name, read_properties props)

unfoldable pub read_command : Text → Text × List (Text × Text) × Text
read_command line =
    let (head, rest) = break_at b':' (drop 2 line) in
    let (name, props) = read_head head in (name, props, unescape (drop 1 rest))

-- The properties that a command shows: those with a truthy value, as text.
unfoldable pub shown : Dict Value → List (Text × Text)
shown [] = []
shown ((key, val) ∷ props) =
    if truthy val then (key, to_command_value val) ∷ shown props else shown props

-- What a name and a key may hold, so that the format can be read back.
abbrev pub IsNameUnit : ℕ → Type 0
IsNameUnit x = (x ≢ 10) × (x ≢ 13) × (x ≢ b':') × (x ≢ b' ')

abbrev pub IsKeyUnit : ℕ → Type 0
IsKeyUnit x = (x ≢ 10) × (x ≢ 13) × (x ≢ b':') × (x ≢ b',') × (x ≢ b'=')

abbrev pub HasCleanKeys : Dict Value → Type 0
HasCleanKeys = All (λ e. All IsKeyUnit e.0)

unfoldable pub entries : Dict Value → List Text
entries [] = []
entries ((key, val) ∷ props) =
    if truthy val then (key ++ codes "=" ++ escape_property val) ∷ entries props else entries props

write_properties_more :
    (props : Dict Value) (s : Text)
    → write_properties props false s ≡ s ++ join_behind (codes ",") (entries props)
unfolding write_properties entries join_behind
write_properties_more [] s = sym (append-nil s)
write_properties_more ((key, val) ∷ props) s = elim (Bool-cases (truthy val)) [
  | inl put ↦ rw put (simp (write_properties_more props, append_assoc))
  | inr skipped ↦ rw skipped (write_properties_more props s)
]

write_properties_first :
    (props : Dict Value) (s : Text)
    → write_properties props true s ≡ s ++ join (codes ",") (entries props)
unfolding write_properties entries join
write_properties_first [] s = sym (append-nil s)
write_properties_first ((key, val) ∷ props) s = elim (Bool-cases (truthy val)) [
  | inl put ↦ rw put (simp (write_properties_more props, append_assoc))
  | inr skipped ↦ rw skipped (write_properties_first props s)
]

-- What stands between the name and the second `::`.
unfoldable pub tail_text : Dict Value → Text
tail_text [] = []
tail_text (e ∷ props) = b' ' ∷ join (codes ",") (entries (e ∷ props))

to_string_parts :
    (name : Text) (props : Dict Value) (message : Value)
    → to_string (record { command = name; properties = props; message = message })
      ≡ b':' ∷ b':' ∷ ((name ++ tail_text props) ++ b':' ∷ b':' ∷ escape_data message)
unfolding to_string tail_text
to_string_parts name [] message = simp (append-nil, append_assoc)
to_string_parts name (e ∷ props) message =
    rw (ltb_zero (length props), write_properties_first (e ∷ props)) (simp append_assoc)

pub to_string_lem :
    (c : Command)
    → to_string c
      ≡ b':' ∷ b':' ∷ ((c.command ++ tail_text c.properties) ++ b':' ∷ b':' ∷ escape_data c.message)
unfolding to_string
to_string_lem c = to_string_parts c.command c.properties c.message
