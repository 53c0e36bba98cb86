-- ===== src/Actions/Command/Lines.antt =====
-- Whole workflow commands (Command.toString and issueCommand of the toolkit's command.js in
-- .github/actions/propose/dist/index.js) against a reader of the documented format,
-- `::name key=value,key=value::message`.
use forta_node_tr.Prelude.{
  ℕ, Text, Dict, List, [], ◌∷◌, ◌++◌, append_assoc, append-nil, codes, ◌≡◌, ◌≢◌, refl, ap, ◌∙◌,
  arith, All, All-append, All-imp, Lacks, Bool-cases, inl, inr, join, join_behind, split-join,
  break_at-append, break_at-Lacks,
}
use mathlib.Core.List.{map}
use forta_node_tr.Js.{Value, truthy}
use forta_node_tr.Actions.Process.{Process}
use forta_node_tr.Actions.Command.{
  Command, to_command_value, escape_data, escape_property, to_string, new_command, issue_command,
}
use forta_node_tr.Actions.Command.Escapes.{
  unescape-escape_data, unescape-escape_property, IsInline, IsPropertyUnit, escape_data-IsInline,
  escape_property-IsPropertyUnit,
}
use forta_node_tr.Actions.Command.Format.{
  read_property, read_properties, read_head, read_command, shown, IsNameUnit, IsKeyUnit,
  HasCleanKeys, entries, tail_text, to_string_lem,
}

read_property-entry :
    (key : Text) (val : Value)
    → All IsKeyUnit key
    → read_property (key ++ codes "=" ++ escape_property val) ≡ (key, to_command_value val)
unfolding read_property
read_property-entry key val h = rw (
  append_assoc key (codes "=") (escape_property val),
  break_at-append b'=' key (escape_property val)
      (All-imp IsKeyUnit (λ x. x ≢ b'=') key (λ x u. u.4) h),
  unescape-escape_property val,
)

read-entries :
    (props : Dict Value) → HasCleanKeys props → map read_property (entries props) ≡ shown props
unfolding entries shown
read-entries [] h = refl
read-entries ((key, val) ∷ props) h = elim (Bool-cases (truthy val)) [
  | inl put ↦ rw put (rw (read_property-entry key val h.0, read-entries props h.1))
  | inr skipped ↦ rw skipped (read-entries props h.1)
]

entry-All {ℓ} :
    (P : ℕ → Type ℓ) (key : Text) (val : Value)
    → All P key
    → P b'='
    → ((x : ℕ) → IsPropertyUnit x → P x)
    → All P (key ++ codes "=" ++ escape_property val)
entry-All P key val h e f =
    All-append P (key ++ codes "=") (escape_property val) (All-append P key (codes "=") h (e, tt))
      (All-imp IsPropertyUnit P (escape_property val) f (escape_property-IsPropertyUnit val))

entries-All {ℓ} :
    (P : ℕ → Type ℓ) (props : Dict Value)
    → HasCleanKeys props
    → ((x : ℕ) → IsKeyUnit x → P x)
    → P b'='
    → ((x : ℕ) → IsPropertyUnit x → P x)
    → All (All P) (entries props)
unfolding entries
entries-All P [] h f e g = tt
entries-All P ((key, val) ∷ props) h f e g = elim (Bool-cases (truthy val)) [
  | inl put ↦
      rw put
        (entry-All P key val (All-imp IsKeyUnit P key f h.0) e g, entries-All P props h.1 f e g)
  | inr skipped ↦ rw skipped (entries-All P props h.1 f e g)
]

join_behind-All {ℓ} :
    (P : ℕ → Type ℓ) (l : List Text) → All (All P) l → P b',' → All P (join_behind (codes ",") l)
unfolding join_behind
join_behind-All P [] h e = tt
join_behind-All P (s ∷ l) h e =
    (e, All-append P s (join_behind (codes ",") l) h.0 (join_behind-All P l h.1 e))

join-All {ℓ} :
    (P : ℕ → Type ℓ) (l : List Text) → All (All P) l → P b',' → All P (join (codes ",") l)
unfolding join
join-All P [] h e = tt
join-All P (s ∷ l) h e = All-append P s (join_behind (codes ",") l) h.0 (join_behind-All P l h.1 e)

entry-ne-nil : (key t : Text) → key ++ codes "=" ++ t ≢ []
entry-ne-nil [] t = cc
entry-ne-nil (x ∷ key) t = cc

entries-ne-nil : (props : Dict Value) → All (λ s. s ≢ []) (entries props)
unfolding entries
entries-ne-nil [] = tt
entries-ne-nil ((key, val) ∷ props) = elim (Bool-cases (truthy val)) [
  | inl put ↦ rw put (entry-ne-nil key (escape_property val), entries-ne-nil props)
  | inr skipped ↦ rw skipped (entries-ne-nil props)
]

read-join :
    (l : List Text)
    → All (Lacks b',') l
    → All (λ s. s ≢ []) l
    → read_properties (join (codes ",") l) ≡ map read_property l
unfolding read_properties
read-join [] h k = unfold join in refl
read-join ([] ∷ l) h k = absurd (k.0 refl)
read-join ((x ∷ s) ∷ l) h k =
    unfold join in ap (map read_property) (split-join b',' (x ∷ s) l h.0 h.1)

read_head-append :
    (name t : Text) → Lacks b' ' name → read_head (name ++ b' ' ∷ t) ≡ (name, read_properties t)
unfolding read_head
read_head-append name t h = rw (break_at-append b' ' name t h)

read_head-Lacks : (name : Text) → Lacks b' ' name → read_head name ≡ (name, [])
unfolding read_head
read_head-Lacks name h = rw (break_at-Lacks b' ' name h) (unfold read_properties in refl)

read_shown :
    (props : Dict Value)
    → HasCleanKeys props
    → read_properties (join (codes ",") (entries props)) ≡ shown props
read_shown props k =
    read-join (entries props) (entries-All (λ x. x ≢ b',') props k (λ x u. u.3) (cc) (λ x u. u.3))
      (entries-ne-nil props)
    ∙ read-entries props k

read_head-tail :
    (name : Text) (props : Dict Value)
    → Lacks b' ' name
    → HasCleanKeys props
    → read_head (name ++ tail_text props) ≡ (name, shown props)
unfolding tail_text
read_head-tail name [] h k = rw (append-nil name, read_head-Lacks name h) (unfold shown in refl)
read_head-tail name (e ∷ props) h k =
    read_head-append name (join (codes ",") (entries (e ∷ props))) h
    ∙ ap (λ q. (name, q)) (read_shown (e ∷ props) k)

tail_text-All {ℓ} :
    (P : ℕ → Type ℓ) (props : Dict Value)
    → HasCleanKeys props
    → P b' '
    → P b','
    → P b'='
    → ((x : ℕ) → IsKeyUnit x → P x)
    → ((x : ℕ) → IsPropertyUnit x → P x)
    → All P (tail_text props)
unfolding tail_text
tail_text-All P [] k sp co eq f g = tt
tail_text-All P (e ∷ props) k sp co eq f g =
    (sp, join-All P (entries (e ∷ props)) (entries-All P (e ∷ props) k f eq g) co)

read_command-parts :
    (name : Text) (props : Dict Value) (message : Value)
    → All IsNameUnit name
    → HasCleanKeys props
    → read_command (b':' ∷ b':' ∷ ((name ++ tail_text props) ++ b':' ∷ b':' ∷ escape_data message))
      ≡ (name, shown props, to_command_value message)
unfolding read_command
read_command-parts name props message h k =
    rw
      (break_at-append b':' (name ++ tail_text props) (b':' ∷ escape_data message) (
        All-append (λ x. x ≢ b':') name (tail_text props)
          (All-imp IsNameUnit (λ x. x ≢ b':') name (λ x u. u.2) h)
          (tail_text-All (λ x. x ≢ b':') props k (cc) (cc) (cc) (λ x u. u.2) (λ x u. u.2))))
      (rw (
        read_head-tail name props (All-imp IsNameUnit (λ x. x ≢ b' ') name (λ x u. u.3) h) k,
        unescape-escape_data message,
      ))

-- A command whose name and keys keep to the format is read back whole: its name, those of its
-- properties that have a truthy value, and its message, each value as its text.
read_command-to_string :
    (c : Command)
    → All IsNameUnit c.command
    → HasCleanKeys c.properties
    → read_command (to_string c) ≡ (c.command, shown c.properties, to_command_value c.message)
read_command-to_string c h k =
    rw (to_string_lem c) (read_command-parts c.command c.properties c.message h k)

colon-IsInline : IsInline b':'
colon-IsInline = ground arith

to_string-IsInline :
    (c : Command)
    → All IsNameUnit c.command
    → HasCleanKeys c.properties
    → All IsInline (to_string c)
to_string-IsInline c h k = rw (to_string_lem c) (
  colon-IsInline,
  (
    colon-IsInline,
    All-append IsInline (c.command ++ tail_text c.properties) (b':' ∷ b':' ∷ escape_data c.message)
        (All-append IsInline c.command (tail_text c.properties)
          (All-imp IsNameUnit IsInline c.command (λ x u. (u.0, u.1)) h)
          (tail_text-All IsInline c.properties k (ground arith) (ground arith) (ground arith)
            (λ x u. (u.0, u.1)) (λ x u. (u.0, u.1))))
        (colon-IsInline, (colon-IsInline, escape_data-IsInline c.message)),
  ),
)

new_command-IsName :
    (name : Text) (props : Dict Value) (message : Value)
    → All IsNameUnit name
    → All IsNameUnit (new_command name props message).command
unfolding new_command
new_command-IsName [] props message h = omega arith
new_command-IsName (x ∷ name) props message h = h

-- Issuing a command whose name and keys keep to the format appends one line and the system's line
-- end to standard output and changes nothing else: no value can end the line early, and the line
-- reads back as the name, the properties with a truthy value, and the message.
pub issue_command_one_line :
    (name : Text) (props : Dict Value) (message : Value) (p : Process)
    → All IsNameUnit name
    → HasCleanKeys props
    → (line : Text) × (issue_command name props message p
        ≡ record p { stdout = p.stdout ++ (line ++ p.eol) })
      × All IsInline line
      × (read_command line
          ≡ ((new_command name props message).command, shown props, to_command_value message))
unfolding issue_command
issue_command_one_line name props message p h k =
    let c : Command = new_command name props message in
    let h' : All IsNameUnit c.command = new_command-IsName name props message h in
    (
      to_string c,
      refl,
      unfold new_command in to_string-IsInline c h' k,
      unfold new_command in read_command-to_string c h' k,
    )
