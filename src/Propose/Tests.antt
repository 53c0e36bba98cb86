-- ===== src/Propose/Tests.antt =====
-- Runs of the release action against a service that lets a session expire once, and the theorems
-- about the action and its client at these inputs.
use forta_node_tr.Prelude.{
  ℕ, zero, suc, Text, Dict, List, [], ◌∷◌, none, some, codes, Result, ok, err, ◌≡◌, ◌⊎◌, refl,
  text_eq, lookup, replace_all, trim, is_space, to_upper,
}
use forta_node_tr.Js.{
  Value, undefined, num, str, obj, end, field, Thrown, error, member, thrown_member, lookup_field,
  set_field, spread, template, print_nat,
}
use forta_node_tr.Actions.Process.{env_text}
use forta_node_tr.Actions.Command
use forta_node_tr.Actions.Core.{
  get_input, input_variable, set_output, set_failed, log_error, message_value,
}
use forta_node_tr.Defender.Remote.{Api, Failure, Answer, accepted, failed, Remote, Event, World}
use forta_node_tr.Defender.Client
use forta_node_tr.Defender.Client.{Client}
use forta_node_tr.Defender.Admin
use forta_node_tr.Defender.Client.Retry.{credentials, Follows, Traffic}
use forta_node_tr.Defender.Admin.Proposals.{
  Accepted, create_proposal-eq-ok, create_proposal-Traffic, proposal_request,
}
use forta_node_tr.Propose.{proposal, main, run, read_inputs, propose_upgrade, announce, on_failure}
use forta_node_tr.Propose.Outcome.{main_outcome, Announced, Failed, Rejected}

abbrev expired : Failure
expired = record {
  response =
      some
        (record { status = num 401; status_text = str (codes "Unauthorized"); body = undefined });
  message = str (codes "Request failed with status code 401");
  request = none;
}

-- The state counts the requests; the first meets an expired session.
abbrev answer : ℕ → Answer
answer zero = failed expired
answer (suc n) =
    accepted
      (obj (field (codes "contractId") (str (codes "c")) (field (codes "proposalId") (num 7) end)))

abbrev service : Remote ℕ
service = record {
  authenticate = λ k p n. (ok (codes "token"), n);
  send = λ r n. (answer n, suc n);
}

abbrev env : Dict Text
env =
    (codes "INPUT_API-KEY", codes "k")
    ∷ (codes "INPUT_API-SECRET", codes "s")
    ∷ (codes "INPUT_VERSION", codes "v1")
    ∷ (codes "INPUT_RELEASE-CID", codes "Qm")
    ∷ []

abbrev start : World ℕ
start = record {
  process = record {
    env = env;
    stdout = [];
    exit_code = none;
    files = [];
    eol = codes "\n";
    path_delimiter = codes ":";
  };
  outside = 0;
  log = [];
  errors = [];
}

abbrev show_error : Thrown → Text
show_error e = codes "error"

release_run :
    (run service show_error start).process.stdout
    ≡ codes
        "proposal created: https://defender.openzeppelin.com/#/admin/contracts/c/proposals/7\n\n::set-output name=proposal-url::https://defender.openzeppelin.com/#/admin/contracts/c/proposals/7\nundefined\n"
unfolding run main read_inputs propose_upgrade announce on_failure get_input input_variable
    Client.new_client trim env_text lookup text_eq to_upper replace_all is_space
    Admin.create_proposal Client.api_call Client.ensure_init Client.init
    Client.create_authenticated_api Client.authenticate Client.run Admin.post_proposal Client.send
    Command.escape_data Command.escape_property Command.issue_command Command.new_command
    Command.to_command_properties Command.to_command_value Command.to_string
    Command.write_properties log_error message_value set_failed set_output Admin.get_proposal_url
    Admin.settings Client.on_error Client.is_expired Client.rejection Client.create_api template
    member thrown_member lookup_field set_field spread proposal print_nat
release_run = refl

abbrev new_client : Client
new_client = record { api_key = codes "k"; api_secret = codes "s"; api = none }

abbrev sending : Value → Api → World ℕ → Result Thrown Value × World ℕ
sending proposal = Admin.post_proposal service proposal

posted_twice :
    (Admin.create_proposal service (str (codes "p")) (new_client, start)).0
    ≡ ok (
        obj (
          field (codes "contractId") (str (codes "c")) (
            field (codes "proposalId") (num 7) (
              field
                (codes "url")
                (str (codes "https://defender.openzeppelin.com/#/admin/contracts/c/proposals/7"))
                end))))
unfolding Admin.create_proposal Client.api_call Client.ensure_init Client.init
    Client.create_authenticated_api Client.authenticate Client.run Admin.post_proposal Client.send
    Client.on_error Client.is_expired Client.rejection Admin.get_proposal_url member thrown_member
    lookup_field set_field spread text_eq template print_nat
posted_twice = refl

create_proposal-Traffic_example :
    (events : List Event) × Follows start events
      (Admin.create_proposal service (str (codes "p")) (new_client, start)).1.1
    × Traffic (credentials new_client) (proposal_request (str (codes "p"))) events
create_proposal-Traffic_example =
    create_proposal-Traffic service (str (codes "p")) new_client start refl

abbrev created : Value
created = obj (
    field (codes "contractId") (str (codes "c")) (
      field (codes "proposalId") (num 7) (
        field (codes "url")
          (str (codes "https://defender.openzeppelin.com/#/admin/contracts/c/proposals/7")) end)))

create_proposal-eq-ok_example : Accepted service (str (codes "p")) created
create_proposal-eq-ok_example =
    create_proposal-eq-ok service (str (codes "p")) new_client start created refl posted_twice

-- The function fails with an `Error` of its own.
abbrev failing : Api → World ℕ → Result Thrown Value × World ℕ
failing api w = (err (error (codes "RangeError") (codes "bad")), w)

main_outcome_example :
    Announced service start (main service start)
    ⊎ (Failed service start (main service start) ⊎ Rejected service start (main service start))
main_outcome_example = main_outcome service start

main_resolves : (main service start).0 ≡ ok undefined
unfolding main read_inputs propose_upgrade announce on_failure get_input input_variable
    Client.new_client trim env_text lookup text_eq to_upper replace_all is_space
    Admin.create_proposal Client.api_call Client.ensure_init Client.init
    Client.create_authenticated_api Client.authenticate Client.run Admin.post_proposal Client.send
    Client.on_error Client.is_expired Client.rejection Client.create_api member thrown_member
    lookup_field set_field spread proposal print_nat Admin.get_proposal_url Admin.settings template
main_resolves = refl
