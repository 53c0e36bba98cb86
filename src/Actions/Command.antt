-- ===== src/Actions/Command.antt =====
-- Workflow commands, `::name key=value,key=value::message`, as lines on standard output
-- (.github/actions/propose/dist/index.js, the toolkit's command.js, utils.js and file-command.js).

pub mod Escapes
pub mod Format
pub mod Lines
use forta_node_tr.Prelude.{
  Text, Dict, List, [], ◌∷◌, ◌++◌, Bool, true, false, Option, none, some, codes, is_empty,
  replace_all, length, ltb, ◌==◌, if◌then◌else◌, lookup, insert, Effect, raise, modify,
}
use forta_node_tr.Js.{Value, undefined, null, str, truthy, stringify, get}
use forta_node_tr.Actions.Process.{Process, Thrown, error, write, env_text}

-- A value of the toolkit's own; what `JSON.stringify` has no text for never gets that far.
unfoldable pub to_command_value : Value → Text
to_command_value undefined = []
to_command_value null = []
to_command_value (str s) = s
to_command_value v = elim (stringify v) [ some t ↦ t | none ↦ [] ]

unfoldable pub to_command_properties : Dict Value → Dict Value
to_command_properties [] = []
to_command_properties (e ∷ props) =
    (codes "title", get (codes "title") (e ∷ props))
    ∷ (codes "file", get (codes "file") (e ∷ props))
    ∷ (codes "line", get (codes "startLine") (e ∷ props))
    ∷ (codes "endLine", get (codes "endLine") (e ∷ props))
    ∷ (codes "col", get (codes "startColumn") (e ∷ props))
    ∷ (codes "endColumn", get (codes "endColumn") (e ∷ props))
    ∷ []

pub record Command : Type 0 where
  pub command : Text
  pub properties : Dict Value
  pub message : Value

unfoldable pub escape_data : Value → Text
escape_data v =
    replace_all 10 (codes "%0A")
      (replace_all 13 (codes "%0D") (replace_all b'%' (codes "%25") (to_command_value v)))

unfoldable pub escape_property : Value → Text
escape_property v = replace_all b',' (codes "%2C") (
    replace_all b':' (codes "%3A") (
      replace_all 10 (codes "%0A")
        (replace_all 13 (codes "%0D") (replace_all b'%' (codes "%25") (to_command_value v)))))

-- The constructor.
unfoldable pub new_command : Text → Dict Value → Value → Command
new_command command properties message = record {
  command = if is_empty command then codes "missing.command" else command;
  properties = properties;
  message = message;
}

-- The loop over the properties: `first` until one was written.
unfoldable pub write_properties : Dict Value → Bool → Text → Text
write_properties [] first cmd_str = cmd_str
write_properties ((key, val) ∷ props) first cmd_str =
    if truthy val
    then write_properties props false (
        (if first then cmd_str else cmd_str ++ codes ",")
        ++ key
        ++ codes "="
        ++ escape_property val)
    else write_properties props first cmd_str

unfoldable pub to_string : Command → Text
to_string c =
    (if ltb 0 (length c.properties)
      then write_properties c.properties true (codes "::" ++ c.command ++ codes " ")
      else codes "::" ++ c.command)
    ++ codes "::"
    ++ escape_data c.message

unfoldable pub issue_command : Text → Dict Value → Value → Process → Process
issue_command command properties message p =
    write (to_string (new_command command properties message) ++ p.eol) p

unfoldable pub issue : Text → Value → Process → Process
issue name message = issue_command name [] message

-- The command as a line of the file that `GITHUB_<command>` names.
unfoldable pub issue_file_command : Text → Value → Effect Process Thrown (Unit {0})
issue_file_command command message p =
    let file_path = env_text (codes "GITHUB_" ++ command) p in
    if is_empty file_path
    then raise
        (error (codes "Error")
          (codes "Unable to find environment variable for file command " ++ command))
        p
    else elim (lookup file_path p.files) [
      | none ↦ raise (error (codes "Error") (codes "Missing file at path: " ++ file_path)) p
      | some text ↦
          modify
            (λ (q : Process). record q {
              files = insert file_path (text ++ to_command_value message ++ q.eol) q.files;
            })
            p
    ]
