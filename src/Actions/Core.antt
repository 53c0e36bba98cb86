-- ===== src/Actions/Core.antt =====
-- The functions of the toolkit's core.js (.github/actions/propose/dist/index.js): inputs, outputs,
-- exported variables, logging and saved state.
pub mod Inputs
pub mod Exports
pub mod Failure
use forta_node_tr.Prelude.{
  ℕ, Text, Dict, List, [], ◌∷◌, ◌++◌, Bool, true, false, not, ◌&&◌, Option, none, some, codes,
  is_empty, includes, trim, to_upper, replace_all, split, text_eq, if◌then◌else◌, lookup, ok,
  Effect, pure, raise, gets, modify, ◌>>=◌, ◌>>◌,
}
use forta_node_tr.Js.{Value, str}
use forta_node_tr.Actions.Process.{Process, Thrown, error, write, env_text, set_env}
use forta_node_tr.Actions.Command.{
  to_command_value, to_command_properties, issue_command, issue, issue_file_command,
}

-- `enum ExitCode`
abbrev pub exit_success : ℕ
exit_success = 0

abbrev pub exit_failure : ℕ
exit_failure = 1

abbrev pub delimiter : Text
delimiter = codes "_GitHubActionsFileCommandDelimeter_"

pub export_variable : Text → Value → Effect Process Thrown (Unit {0})
export_variable name val before =
    let converted_val = to_command_value val in
    let p = set_env name converted_val before in
    if is_empty (env_text (codes "GITHUB_ENV") p)
    then (
      ok tt,
      issue_command (codes "set-env") ((codes "name", str name) ∷ []) (str converted_val) p,
    )
    else issue_file_command (codes "ENV")
        (str (name ++ codes "<<" ++ delimiter ++ p.eol ++ converted_val ++ p.eol ++ delimiter)) p

pub set_secret : Value → Process → Process
set_secret secret = issue_command (codes "add-mask") [] secret

-- `${process.env['PATH']}`
abbrev path_text : Process → Text
path_text p = elim (lookup (codes "PATH") p.env) [ some t ↦ t | none ↦ codes "undefined" ]

add_to_path : Text → Process → Process
add_to_path input_path p = set_env (codes "PATH") (input_path ++ p.path_delimiter ++ path_text p) p

add_path : Text → Effect Process Thrown (Unit {0})
unfolding add_to_path
add_path input_path = do
  file_path ← gets (env_text (codes "GITHUB_PATH"))
  if is_empty file_path
      then modify (issue_command (codes "add-path") [] (str input_path))
      else issue_file_command (codes "PATH") (str input_path)
  modify (add_to_path input_path)

-- `trim_whitespace` is false only for the option `trimWhitespace: false`.
pub record InputOptions : Type 0 where
  pub required : Bool
  pub trim_whitespace : Bool

-- The options that a call without options amounts to.
abbrev pub no_options : InputOptions
no_options = record { required = false; trim_whitespace = true }

unfoldable pub input_variable : Text → Text
input_variable name = codes "INPUT_" ++ to_upper (replace_all b' ' (codes "_") name)

unfoldable pub get_input : Text → InputOptions → Effect Process Thrown Text
get_input name options p =
    let val = env_text (input_variable name) p in
    if options.required && is_empty val
    then raise (error (codes "Error") (codes "Input required and not supplied: " ++ name)) p
    else if not options.trim_whitespace
    then pure val p
    else pure (trim val) p

abbrev nonempty : List Text → List Text
nonempty [] = []
nonempty ([] ∷ l) = nonempty l
nonempty ((x ∷ s) ∷ l) = (x ∷ s) ∷ nonempty l

pub get_multiline_input : Text → InputOptions → Effect Process Thrown (List Text)
get_multiline_input name options = do val ← get_input name options; pure (nonempty (split 10 val))

abbrev pub true_values : List Text
true_values = codes "true" ∷ codes "True" ∷ codes "TRUE" ∷ []

abbrev pub false_values : List Text
false_values = codes "false" ∷ codes "False" ∷ codes "FALSE" ∷ []

-- What `getBooleanInput` makes of the value of an input.
unfoldable pub read_boolean : Text → Text → Effect Process Thrown Bool
read_boolean name val =
    if includes true_values val
    then pure true
    else if includes false_values val
    then pure false
    else raise (
        error (codes "TypeError") (
          codes "Input does not meet YAML 1.2 \"Core Schema\" specification: "
          ++ name
          ++ codes "\n"
          ++ codes "Support boolean input list: `true | True | TRUE | false | False | FALSE`"))

unfoldable pub get_boolean_input : Text → InputOptions → Effect Process Thrown Bool
get_boolean_input name options = do val ← get_input name options; read_boolean name val

unfoldable pub set_output : Text → Value → Process → Process
set_output name val p =
    issue_command (codes "set-output") ((codes "name", str name) ∷ []) val (write p.eol p)

set_command_echo : Bool → Process → Process
set_command_echo enabled = issue (codes "echo") (str (if enabled then codes "on" else codes "off"))

-- What the logging functions take: a value, or an `Error` with its name and message.
pub data Message : Type 0 where
  plain : Value → Message
  thrown_error : Text → Text → Message

-- `message instanceof Error ? message.toString() : message`
unfoldable pub message_value : Message → Value
message_value (plain v) = v
message_value (thrown_error [] message) = str message
message_value (thrown_error (x ∷ name) []) = str (x ∷ name)
message_value (thrown_error (x ∷ name) (y ∷ message)) =
    str ((x ∷ name) ++ codes ": " ++ (y ∷ message))

unfoldable pub log_error : Message → Dict Value → Process → Process
log_error message properties =
    issue_command (codes "error") (to_command_properties properties) (message_value message)

pub warning : Message → Dict Value → Process → Process
warning message properties =
    issue_command (codes "warning") (to_command_properties properties) (message_value message)

notice : Message → Dict Value → Process → Process
notice message properties =
    issue_command (codes "notice") (to_command_properties properties) (message_value message)

unfoldable pub set_failed : Message → Process → Process
set_failed message p = log_error message [] (record p { exit_code = some exit_failure })

is_debug : Process → Bool
is_debug p = text_eq (env_text (codes "RUNNER_DEBUG") p) (codes "1")

unfoldable pub debug : Value → Process → Process
debug message = issue_command (codes "debug") [] message

unfoldable pub info : Text → Process → Process
info message p = write (message ++ p.eol) p

unfoldable pub start_group : Value → Process → Process
start_group name = issue (codes "group") name

unfoldable pub end_group : Process → Process
end_group = issue (codes "endgroup") (str [])

-- `fn` between the two commands; the second also follows a throw.
unfoldable pub group : {A : Type 0} → Value → Effect Process Thrown A → Effect Process Thrown A
group name fn p = let (r, q) = fn (start_group name p) in (r, end_group q)

save_state : Text → Value → Process → Process
save_state name val = issue_command (codes "save-state") ((codes "name", str name) ∷ []) val

get_state : Text → Process → Text
get_state name = env_text (codes "STATE_" ++ name)
