-- ===== src/Actions/Tests.antt =====
-- Runs of the toolkit on small inputs, and its theorems at inputs that meet their hypotheses.
use forta_node_tr.Prelude.{
  Text, Dict, List, [], ◌∷◌, ◌++◌, true, none, some, codes, ok, ◌>>◌, ◌≡◌, ◌≢◌, refl, arith, All,
  text_eq, lookup, replace_all, trim, is_space, to_upper, IsSpace, StartsInk,
}
use mathlib.Core.List.{reverse}
use forta_node_tr.Js.{Value, str, num, undefined, stringify}
use forta_node_tr.Actions.Process.{Process, env_text}
use forta_node_tr.Actions.Command.{
  to_string, write_properties, escape_data, escape_property, to_command_value, new_command,
  issue_command, issue,
}
use forta_node_tr.Actions.Command.Escapes.{unescape, unescape-escape_data, IsInline}
use forta_node_tr.Actions.Command.Format.{read_command, shown}
use forta_node_tr.Actions.Command.Lines.{issue_command_one_line}
use forta_node_tr.Actions.Core.{
  no_options, input_variable, get_input, get_boolean_input, read_boolean, export_variable,
  set_failed, plain, message_value, exit_failure, group, start_group, end_group, info,
}
use forta_node_tr.Actions.Core.Inputs.{get_input_sound}
use forta_node_tr.Actions.Core.Exports.{export_variable-env, export_variable-smuggle, smuggle}
use forta_node_tr.Actions.Core.Failure.{set_failed_lem}

abbrev start : Process
start = record {
  env =
      (codes "INPUT_DRY_RUN", codes " TRUE\n")
      ∷ (codes "INPUT_NAMES", codes "a\n\nbc")
      ∷ (codes "GITHUB_ENV", codes "/env")
      ∷ [];
  stdout = [];
  exit_code = none;
  files = (codes "/env", codes "x") ∷ [];
  eol = codes "\n";
  path_delimiter = codes ":";
}

abbrev props : Dict Value
props = (codes "name", str (codes "a:b")) ∷ (codes "title", undefined) ∷ (codes "n", num 3) ∷ []

command_line :
    to_string
      (record { command = codes "warning"; properties = props; message = str (codes "50%\n") })
    ≡ codes "::warning name=a%3Ab,n=3::50%25%0A"
unfolding to_string write_properties escape_data escape_property to_command_value replace_all
    stringify
command_line = refl

dry_run : (get_boolean_input (codes "dry run") no_options start).0 ≡ ok true
unfolding get_boolean_input read_boolean get_input input_variable to_upper replace_all env_text
    lookup trim text_eq is_space
dry_run = refl

grouped :
    (group (str (codes "g")) (λ p. (ok tt, info (codes "x") p)) start).1.stdout
    ≡ codes "::group::g\nx\n::endgroup::\n"
unfolding group start_group end_group info issue issue_command new_command to_string escape_data
    to_command_value replace_all
grouped = refl

issue_command_one_line_example :
    (line : Text) × (issue_command (codes "warning") props (str (codes "50%")) start
      ≡ record start { stdout = start.stdout ++ (line ++ start.eol) })
    × All IsInline line
    × (read_command line ≡ (
      (new_command (codes "warning") props (str (codes "50%"))).command,
      shown props,
      to_command_value (str (codes "50%")),
    ))
issue_command_one_line_example =
    issue_command_one_line (codes "warning") props (str (codes "50%")) start (omega arith)
      (omega arith)

unescape-escape_data_example :
    unescape (escape_data (str (codes "a\nb"))) ≡ to_command_value (str (codes "a\nb"))
unescape-escape_data_example = unescape-escape_data (str (codes "a\nb"))

abbrev dry_run_input : Text
dry_run_input = codes "TRUE"

read_dry_run : get_input (codes "dry run") no_options start ≡ (ok dry_run_input, start)
unfolding get_input input_variable to_upper replace_all env_text lookup trim text_eq is_space
read_dry_run = refl

get_input_sound_example :
    (start ≡ start)
    × (no_options.required ≡ true → env_text (input_variable (codes "dry run")) start ≢ [])
    × ((before : Text) × (after : Text) × (env_text (input_variable (codes "dry run")) start
          ≡ before ++ (dry_run_input ++ after))
        × All IsSpace before
        × All IsSpace after)
    × StartsInk dry_run_input
    × StartsInk (reverse dry_run_input)
get_input_sound_example =
    get_input_sound (codes "dry run") no_options start start dry_run_input read_dry_run refl

export_variable-env_example :
    lookup (codes "K") (export_variable (codes "K") (num 5) start).1.env
    ≡ some (to_command_value (num 5))
export_variable-env_example = export_variable-env (codes "K") (num 5) start

named_file : env_text (codes "GITHUB_ENV") start ≡ codes "/env"
unfolding env_text lookup text_eq
named_file = refl

file_there : lookup (codes "/env") start.files ≡ some (codes "x")
unfolding lookup text_eq
file_there = refl

export_variable-smuggle_example :
    lookup
      (codes "/env")
      (export_variable
        (codes "A")
        (str (smuggle start.eol (codes "1") (codes "B") (codes "2")))
        start).1.files
    ≡ lookup
        (codes "/env")
        ((export_variable (codes "A") (str (codes "1"))
            >> export_variable (codes "B") (str (codes "2")))
          start).1.files
export_variable-smuggle_example =
    export_variable-smuggle (codes "A") (codes "B") (codes "/env") (codes "x") (codes "1")
      (codes "2") start (cc) (cc) named_file (cc) file_there

set_failed_lem_example :
    (line : Text) × (set_failed (plain (str (codes "no"))) start ≡ record start {
      stdout = start.stdout ++ (line ++ start.eol);
      exit_code = some exit_failure;
    })
    × All IsInline line
    × (read_command line
        ≡ (codes "error", [], to_command_value (message_value (plain (str (codes "no"))))))
set_failed_lem_example = set_failed_lem (plain (str (codes "no"))) start
