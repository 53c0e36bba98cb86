-- ===== src/Actions/Core/Failure.antt =====
-- setFailed, setOutput and group of the toolkit's core.js
-- (.github/actions/propose/dist/index.js): what the runner sees of an action's outcome.
use forta_node_tr.Prelude.{Text, [], ◌++◌, some, codes, ◌≡◌, arith, All}
use forta_node_tr.Actions.Process.{Process}
use forta_node_tr.Actions.Command.{to_command_value, to_command_properties, new_command}
use forta_node_tr.Actions.Command.Escapes.{IsInline}
use forta_node_tr.Actions.Command.Format.{read_command, shown}
use forta_node_tr.Actions.Command.Lines.{issue_command_one_line}
use forta_node_tr.Actions.Core.{Message, message_value, log_error, set_failed, exit_failure}

-- Failing the action sets exit code 1 and appends one line, which reads back as an `error` command
-- with the message and no properties; the environment and the files stay.
pub set_failed_lem :
    (message : Message) (p : Process)
    → (line : Text) × (set_failed message p
        ≡ record p { stdout = p.stdout ++ (line ++ p.eol); exit_code = some exit_failure })
      × All IsInline line
      × (read_command line ≡ (codes "error", [], to_command_value (message_value message)))
unfolding set_failed log_error to_command_properties
set_failed_lem message p =
    let (line, issued, inline, reads) =
      issue_command_one_line (codes "error") [] (message_value message)
        (record p { exit_code = some exit_failure }) (ground arith) tt in
    (line, issued, inline, unfold new_command shown in reads)
