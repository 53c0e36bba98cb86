-- ===== src/Defender/Admin.antt =====
-- AdminClient and getProposalUrl of defender-admin-client
-- (.github/actions/propose/dist/index.js).
pub mod Proposals
use forta_node_tr.Prelude.{
  ℕ, zero, suc, Text, List, [], ◌∷◌, ◌++◌, Bool, true, false, Option, none, some, codes, or_text,
  Result, ok, err, Effect, pure, ◌>>=◌,
}
use forta_node_tr.Js.{
  Value, Fields, undefined, null, str, obj, end, field, Thrown, member, template, spread, set_field,
}
use forta_node_tr.Actions.Process.{env_text}
use forta_node_tr.Defender.Remote.{Api, Method, Remote, World}
use forta_node_tr.Defender.Client
use forta_node_tr.Defender.Client.{Settings}

abbrev pub app_url : Text
app_url = codes "https://defender.openzeppelin.com"

-- `getPoolId`, `getPoolClientId` and `getApiUrl`.
unfoldable pub settings : {S : Type 0} → World S → Settings
settings w = record {
  pool_id =
      or_text (env_text (codes "DEFENDER_ADMIN_POOL_ID") w.process) (codes "us-west-2_94f3puJWv");
  pool_client_id =
      or_text (env_text (codes "DEFENDER_ADMIN_POOL_CLIENT_ID") w.process)
        (codes "40e58hbc7pktmnp9i26hh5nsav");
  api_url =
      or_text (env_text (codes "DEFENDER_ADMIN_API_URL") w.process)
        (codes "https://defender-api.openzeppelin.com/admin/");
}

unfoldable pub get_proposal_url : Value → Result Thrown Text
get_proposal_url proposal = elim (member (codes "contractId") proposal) [
  | err e ↦ err e
  | ok contract_id ↦ elim (member (codes "proposalId") proposal) [
    | err e ↦ err e
    | ok proposal_id ↦ ok (
        app_url
        ++ codes "/#/admin/contracts/"
        ++ template contract_id
        ++ codes "/proposals/"
        ++ template proposal_id)
  ]
]

-- `v ?? t`
abbrev or_default : Value → Text → Value
or_default undefined t = str t
or_default null t = str t
or_default v t = v

abbrev take : ℕ → Text → Text
take zero s = []
take (suc n) [] = []
take (suc n) (x ∷ s) = x ∷ take n s

pub record UpgradeParams : Type 0 where
  pub title : Value
  pub description : Value
  pub new_implementation : Text
  pub proxy_admin : Value
  pub via : Value
  pub via_type : Value

pub record PauseParams : Type 0 where
  pub title : Value
  pub description : Value
  pub via : Value
  pub via_type : Value

pub data Action : Type 0 where
  pause unpause : Action

abbrev action_text : Action → Text
action_text pause = codes "pause"
action_text unpause = codes "unpause"

-- lodash's `capitalize` of it.
abbrev capitalized : Action → Text
capitalized pause = codes "Pause"
capitalized unpause = codes "Unpause"

pub upgrade_request : UpgradeParams → Value → Value
upgrade_request p contract = obj (
    field (codes "contract") contract (
      field (codes "type") (str (codes "upgrade")) (
        field (codes "metadata")
          (obj (
            field (codes "newImplementationAddress") (str p.new_implementation)
              (field (codes "proxyAdminAddress") p.proxy_admin end)))
          (field (codes "title")
            (or_default p.title (codes "Upgrade to " ++ take 10 p.new_implementation))
            (field (codes "description")
              (or_default p.description
                (codes "Upgrade contract implementation to " ++ p.new_implementation))
              (field (codes "via") p.via (field (codes "viaType") p.via_type end)))))))

pub pause_request : PauseParams → Value → Action → Value
pause_request p contract action = obj (
    field (codes "contract") contract (
      field (codes "type") (str (codes "pause")) (
        field (codes "via") p.via (
          field (codes "viaType") p.via_type (
            field (codes "metadata") (obj (field (codes "action") (str (action_text action)) end)) (
              field (codes "title") (or_default p.title (capitalized action ++ codes " contract")) (
                field (codes "description")
                  (or_default p.description (capitalized action ++ codes " contract")) end)))))))

module _ {S : Type 0} (remote : Remote S) where
  add_contract : Value → Client.Call remote Value
  add_contract contract =
      Client.api_call remote settings
        (λ api. Client.send remote api Method.put (codes "/contracts") contract)

  list_contracts : Client.Call remote Value
  list_contracts =
      Client.api_call remote settings
        (λ api. Client.send remote api Method.get (codes "/contracts") undefined)

  -- The function that `createProposal` hands to `apiCall`.
  unfoldable pub post_proposal : Value → Api → Effect (World S) Thrown Value
  post_proposal proposal api w =
      let (r, w') = Client.send remote api Method.post (codes "/proposals") proposal w in
      elim r [
        | err e ↦ (err e, w')
        | ok response ↦ elim (get_proposal_url response) [
          | err e ↦ (err e, w')
          | ok url ↦ (ok (obj (set_field (codes "url") (str url) (spread response))), w')
        ]
      ]

  unfoldable pub create_proposal : Value → Client.Call remote Value
  create_proposal proposal = Client.api_call remote settings (post_proposal proposal)

  unfoldable pub propose_upgrade : UpgradeParams → Value → Client.Call remote Value
  propose_upgrade p contract = create_proposal (upgrade_request p contract)

  propose_pauseability_action : PauseParams → Value → Action → Client.Call remote Value
  propose_pauseability_action p contract action = create_proposal (pause_request p contract action)

  propose_pause : PauseParams → Value → Client.Call remote Value
  propose_pause p contract = propose_pauseability_action p contract pause

  propose_unpause : PauseParams → Value → Client.Call remote Value
  propose_unpause p contract = propose_pauseability_action p contract unpause
