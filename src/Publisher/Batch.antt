-- ===== src/Publisher/Batch.antt =====
-- How notifications are collected in a batch (services/publisher/publisher.go: BatchData and
-- prepareLatestBatch). A notification is about a block or about a transaction: the sender sets the
-- request of one of them. A Go panic is `none`.
pub mod Upsert
pub mod Contents
pub mod Preparing
pub mod Growing
pub mod Collecting
pub mod Passing
use forta_node_tr.Prelude.{
  ℕ, ◌+◌, ◌==◌, Text, text_eq, List, [], ◌∷◌, ◌++◌, Bool, true, false, Option, none, some, member,
  if◌then◌else◌, is_empty,
}
use forta_node_tr.Agents.{Library}

pub record Finding : Type 0 where
  pub is_private : Bool
  pub severity : ℕ

-- `SignedAlert` with its alert, whether its agent is a test agent, and its finding.
pub record Alert : Type 0 where
  pub id : Text
  pub is_test : Bool
  pub finding : Option Finding

pub record EventBlock : Type 0 where
  pub block_number : Text
  pub block_hash : Text
  pub block_timestamp : Text

-- `EvalBlockRequest`, or else `EvalTxRequest` with the hashes of its receipt and transaction.
pub data Subject : Type 0 where
  of_block : EventBlock → Subject
  of_tx : EventBlock → Text → Text → Subject

-- `NotifyRequest`; `response_private` is `Private` of the response that is set, the block's first.
pub record Notification : Type 0 where
  pub manifest : Text
  pub signed_alert : Option Alert
  pub subject : Subject
  pub response_private : Option Bool

pub record AgentAlerts : Type 0 where
  pub agent_manifest : Text
  pub alerts : List Alert

pub record TransactionResults : Type 0 where
  pub transaction_hash : Text
  pub results : List AgentAlerts

pub record BlockResults : Type 0 where
  pub block_hash : Text
  pub block_number : ℕ
  pub block_timestamp : Text
  pub transactions : List TransactionResults
  pub results : List AgentAlerts

pub record BatchAgent : Type 0 where
  pub manifest : Text
  pub blocks : List ℕ
  pub transactions : List Text

pub record AlertBatch : Type 0 where
  pub chain_id : ℕ
  pub block_start : ℕ
  pub block_end : ℕ
  pub alert_count : ℕ
  pub max_severity : ℕ
  pub private_alerts : List AgentAlerts
  pub agents : List BatchAgent
  pub results : List BlockResults

unfoldable pub new_batch : ℕ → AlertBatch
new_batch chain_id = record {
  chain_id = chain_id;
  block_start = 0;
  block_end = 0;
  alert_count = 0;
  max_severity = 0;
  private_alerts = [];
  agents = [];
  results = [];
}

-- The lookups return a pointer to the first item that matches, or to a new one at the end; what is
-- done with it is `f`.
unfoldable pub upsert : {A : Type 0} → (A → Bool) → A → (A → A) → List A → List A
upsert matches fresh f [] = f fresh ∷ []
upsert matches fresh f (x ∷ xs) = if matches x then f x ∷ xs else x ∷ upsert matches fresh f xs

-- `GetAgentAlerts` and `GetPrivateAlerts`, and the alert that is appended to what they return.
unfoldable pub with_agent_alerts :
    Text → (AgentAlerts → AgentAlerts) → List AgentAlerts → List AgentAlerts
unfolding upsert
with_agent_alerts manifest =
    upsert (λ a. text_eq a.agent_manifest manifest)
      (record { agent_manifest = manifest; alerts = [] })

unfoldable pub append_to : Alert → AgentAlerts → AgentAlerts
append_to alert a = record a { alerts = a.alerts ++ (alert ∷ []) }

unfoldable pub with_transaction_results :
    Text → (TransactionResults → TransactionResults) → BlockResults → BlockResults
unfolding upsert
with_transaction_results hash f b = record b {
  transactions =
      upsert (λ t. text_eq t.transaction_hash hash)
        (record { transaction_hash = hash; results = [] }) f b.transactions;
}

unfoldable pub with_block_results :
    EventBlock → ℕ → (BlockResults → BlockResults) → AlertBatch → AlertBatch
unfolding upsert
with_block_results block number f bd = record bd {
  results =
      upsert (λ b. b.block_number == number)
        (record {
          block_hash = block.block_hash;
          block_number = number;
          block_timestamp = block.block_timestamp;
          transactions = [];
          results = [];
        })
        f bd.results;
}

-- `AddBatchAgent` for an agent that was found or added; block number 0 is an error that is logged.
unfoldable pub processed : ℕ → Text → BatchAgent → BatchAgent
processed number tx_hash a = if number == 0 then a else record a {
  blocks = if member number a.blocks then a.blocks else a.blocks ++ (number ∷ []);
  transactions = if is_empty tx_hash then a.transactions else a.transactions ++ (tx_hash ∷ []);
}

unfoldable pub add_batch_agent : Text → ℕ → Text → AlertBatch → AlertBatch
unfolding upsert processed
add_batch_agent manifest number tx_hash bd = record bd {
  agents =
      upsert (λ a. text_eq a.manifest manifest)
        (record { manifest = manifest; blocks = []; transactions = [] }) (processed number tx_hash)
        bd.agents;
}

finding_private : Option Bool → Finding → Bool
finding_private none f = f.is_private
finding_private (some p) f = if f.is_private then true else p

alert_private : Option Bool → Option Finding → Bool
unfolding finding_private
alert_private response none = false
alert_private response (some f) = finding_private response f

unfoldable pub is_private : Notification → Bool
unfolding alert_private
is_private n = elim n.signed_alert [
  | none ↦ false
  | some a ↦ alert_private n.response_private a.finding
]

unfoldable pub counted : AlertBatch → AlertBatch
counted bd = record bd { alert_count = bd.alert_count + 1 }

-- `MustDecodeUint64`
unfoldable pub must_decode : Library → Text → Option ℕ
must_decode lib t = let (n, failed) = lib.decode_uint64 t in if failed then none else some n

-- The branches of `AppendAlert`: what becomes of an alert, and of a notification without one.
unfoldable pub append_private : Text → Option Alert → AlertBatch → AlertBatch
unfolding with_agent_alerts append_to counted
append_private manifest none bd = bd
append_private manifest (some a) bd =
    counted
      (record bd { private_alerts = with_agent_alerts manifest (append_to a) bd.private_alerts })

unfoldable pub append_block : Text → EventBlock → ℕ → Option Alert → AlertBatch → AlertBatch
unfolding with_block_results with_agent_alerts append_to counted
append_block manifest block number none bd = with_block_results block number (λ b. b) bd
append_block manifest block number (some a) bd = counted (
    with_block_results block number
      (λ b. record b { results = with_agent_alerts manifest (append_to a) b.results }) bd)

unfoldable pub append_tx : Text → EventBlock → Text → ℕ → Option Alert → AlertBatch → AlertBatch
unfolding with_block_results with_transaction_results with_agent_alerts append_to counted
append_tx manifest block hash number none bd = with_block_results block number (λ b. b) bd
append_tx manifest block hash number (some a) bd = counted (
    with_block_results block number
      (with_transaction_results hash
        (λ t. record t { results = with_agent_alerts manifest (append_to a) t.results }))
      bd)

unfoldable pub append_public : Text → Subject → Option Alert → ℕ → AlertBatch → AlertBatch
unfolding append_block append_tx add_batch_agent
append_public manifest (of_block b) alert number bd =
    append_block manifest b number alert (add_batch_agent manifest number [] bd)
append_public manifest (of_tx b receipt hash) alert number bd =
    append_tx manifest b hash number alert (add_batch_agent manifest number receipt bd)

unfoldable pub block_number_of : Subject → Text
block_number_of (of_block b) = b.block_number
block_number_of (of_tx b receipt hash) = b.block_number

-- `AppendAlert`
unfoldable pub append_alert : Library → Notification → AlertBatch → Option AlertBatch
unfolding is_private append_private append_public must_decode
append_alert lib n bd =
    if is_private n
    then some (append_private n.manifest n.signed_alert bd)
    else elim (must_decode lib (block_number_of n.subject)) [
      | none ↦ none
      | some number ↦ some (append_public n.manifest n.subject n.signed_alert number bd)
    ]
