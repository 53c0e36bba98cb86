-- ===== src/Propose.antt =====
-- The release action itself (.github/actions/propose/index.js): it proposes, through the Defender
-- client, that the version contract be set to the release's CID.
pub mod Outcome
mod Tests
use forta_node_tr.Prelude.{
  Text, List, [], ◌∷◌, ◌++◌, codes, Result, ok, err, Effect, pure, modify, ◌>>=◌, ◌>>◌,
}
use forta_node_tr.Js.{
  Value, undefined, str, arr, obj, nil, cons, end, field, Thrown, member, thrown_member, template,
}
use forta_node_tr.Actions.Process.{Process, write}
use forta_node_tr.Actions.Core.{no_options, get_input, set_output, set_failed, plain}
use forta_node_tr.Defender.Remote.{Remote, World}
use forta_node_tr.Defender.Client
use forta_node_tr.Defender.Admin

-- The seven inputs, in the order in which they are read.
pub record Inputs : Type 0 where
  pub api_key : Text
  pub api_secret : Text
  pub version_contract : Text
  pub network : Text
  pub multisig : Text
  pub version : Text
  pub cid : Text

-- `params`
pub proposal : Inputs → Value
proposal i = obj (
    field (codes "contract")
      (obj (
        field (codes "address") (str i.version_contract)
          (field (codes "network") (str i.network) end)))
      (field (codes "title") (str (codes "Forta Node Release " ++ i.version)) (
        field (codes "description")
          (str (codes "Release forta-node " ++ i.version ++ codes " (" ++ i.cid ++ codes ")"))
          (field (codes "type") (str (codes "custom")) (
            field (codes "functionInterface")
              (obj (
                field (codes "inputs")
                  (arr (
                    cons
                      (obj (
                        field (codes "internalType") (str (codes "string")) (
                          field (codes "name") (str (codes "version"))
                            (field (codes "type") (str (codes "string")) end))))
                      nil))
                  (field (codes "name") (str (codes "setScannerNodeVersion")) (
                    field (codes "outputs") (arr nil) (
                      field (codes "stateMutability") (str (codes "nonpayable"))
                        (field (codes "type") (str (codes "function")) end))))))
              (field (codes "functionInputs") (arr (cons (str i.cid) nil)) (
                field (codes "via") (str i.multisig)
                  (field (codes "viaType") (str (codes "Gnosis Safe")) end))))))))

module _ {S : Type 0} where
  -- A step of the toolkit, on the world's process.
  abbrev pub on_process : {A : Type 0} → Effect Process Thrown A → Effect (World S) Thrown A
  on_process m w = let (r, p) = m w.process in (r, record w { process = p })

  abbrev pub update_process : (Process → Process) → World S → World S
  update_process f w = record w { process = f w.process }

  -- `console.log(s)`
  abbrev pub console_log : Text → World S → World S
  console_log s = update_process (write (s ++ codes "\n"))

  pub read_inputs : Effect (World S) Thrown Inputs
  read_inputs = do
    api_key ← on_process (get_input (codes "api-key") no_options)
    api_secret ← on_process (get_input (codes "api-secret") no_options)
    version_contract ← on_process (get_input (codes "scanner-version-contract") no_options)
    network ← on_process (get_input (codes "network") no_options)
    multisig ← on_process (get_input (codes "multisig") no_options)
    version ← on_process (get_input (codes "version") no_options)
    cid ← on_process (get_input (codes "release-cid") no_options)
    pure (record {
      api_key = api_key;
      api_secret = api_secret;
      version_contract = version_contract;
      network = network;
      multisig = multisig;
      version = version;
      cid = cid;
    })

module _ {S : Type 0} (remote : Remote S) where
  -- `return result.url`
  abbrev pub url_of :
      Result Thrown Value × (Client.Client × World S) → Result Thrown Value × World S
  url_of (ok result, (c, w)) = (member (codes "url") result, w)
  url_of (err e, (c, w)) = (err e, w)

  pub propose_upgrade : Inputs → Effect (World S) Thrown Value
  propose_upgrade i w = elim (Client.new_client i.api_key i.api_secret) [
    | err e ↦ (err e, w)
    | ok client ↦ url_of (Admin.create_proposal remote (proposal i) (client, w))
  ]

  -- What `main` does with the address of the proposal.
  pub announce : Value → World S → World S
  announce url w =
      update_process (set_output (codes "proposal-url") url)
        (console_log (codes "proposal created: " ++ template url) w)

  -- The `catch` of `main`.
  pub on_failure : Thrown → Effect (World S) Thrown Value
  on_failure e w = elim (thrown_member (codes "message") e) [
    | err e' ↦ (err e', w)
    | ok message ↦ (ok undefined, update_process (set_failed (plain message)) w)
  ]

  -- The end of the `try`, and the `catch`: `main` returns nothing.
  abbrev pub settle : Result Thrown Value × World S → Result Thrown Value × World S
  settle (ok url, w) = (ok undefined, announce url w)
  settle (err e, w) = on_failure e w

  pub main : Effect (World S) Thrown Value
  main w = settle ((read_inputs >>= propose_upgrade) w)

  -- The call at the end of the file; `inspect` is how `console.log` shows what was thrown.
  abbrev pub log_end : (Thrown → Text) → Result Thrown Value × World S → World S
  log_end inspect (ok url, w) = console_log (template url) w
  log_end inspect (err e, w) = console_log (inspect e) w

  unfoldable pub run : (Thrown → Text) → World S → World S
  run inspect w = log_end inspect (main w)
