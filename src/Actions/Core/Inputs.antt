-- ===== src/Actions/Core/Inputs.antt =====
-- Reading inputs: getInput, getMultilineInput and getBooleanInput of the toolkit's core.js in
-- .github/actions/propose/dist/index.js.
use forta_node_tr.Prelude.{
  Text, List, [], ◌∷◌, ◌++◌, Bool, true, false, is_empty, trim, ◌==◌, if◌then◌else◌, Result, ok,
  Effect, ◌≡◌, ◌≢◌, arith, All, IsSpace, StartsInk, trim_lem, is_empty_iff,
}
use mathlib.Core.List.{reverse}
use forta_node_tr.Actions.Process.{Process, Thrown, env_text}
use forta_node_tr.Actions.Core.{InputOptions, input_variable, get_input, true_values, false_values}

-- The spellings of a Boolean.
abbrev pub spellings : Bool → List Text
spellings true = true_values
spellings false = false_values

abbrev pure_result : Result Thrown Text → Effect Process Thrown Text
pure_result r p = (r, p)

get_input-eq :
    (name : Text) (options : InputOptions) (p q : Process) (v : Text)
    → get_input name options p ≡ (ok v, q)
    → options.trim_whitespace ≡ true
    → (q ≡ p)
      × (v ≡ trim (env_text (input_variable name) p))
      × (options.required ≡ true → is_empty (env_text (input_variable name) p) ≡ false)
unfolding get_input
get_input-eq name options p q v h t = ground arith

-- An input that is read with trimming leaves the process as it was, is set if it is required, and
-- is the variable's text but for white space around it: it neither begins nor ends with any.
pub get_input_sound :
    (name : Text) (options : InputOptions) (p q : Process) (v : Text)
    → get_input name options p ≡ (ok v, q)
    → options.trim_whitespace ≡ true
    → (q ≡ p)
      × (options.required ≡ true → env_text (input_variable name) p ≢ [])
      × ((before : Text) × (after : Text) × (env_text (input_variable name) p
            ≡ before ++ (v ++ after))
          × All IsSpace before
          × All IsSpace after)
      × StartsInk v
      × StartsInk (reverse v)
get_input_sound name options p q v h t =
    let (same, trimmed, set) = get_input-eq name options p q v h t in
    let (before, after, whole, b, a, starts, ends) = trim_lem (env_text (input_variable name) p) in
    (
      same,
      (λ r e. ground (arith, set r, is_empty_iff (env_text (input_variable name) p))),
      (before, after, rw trimmed whole, b, a),
      rw trimmed starts,
      rw trimmed ends,
    )

-- The text with its line feeds taken out.
abbrev pub without_lines : Text → Text
without_lines [] = []
without_lines (x ∷ s) = if x == 10 then without_lines s else x ∷ without_lines s

abbrev pub concat : List Text → Text
concat [] = []
concat (s ∷ l) = s ++ concat l
