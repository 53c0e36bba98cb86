-- ===== src/Publisher/Batch/Contents.antt =====
-- The alerts that a batch holds, wherever they stand in it (services/publisher/publisher.go).
use mathlib.Core.List.{Perm, perm_middle, perm_append_singleton}
use mathlib.Core.List.Perm
use forta_node_tr.Prelude.{
  ℕ, ◌+◌, ◌==◌, Text, text_eq, List, [], ◌∷◌, ◌++◌, false, Bool-cases, Option, none, some, length,
  ◌≡◌, inl, inr, refl, sym, ap, subst, arith,
}
use forta_node_tr.Agents.{Library}
use forta_node_tr.Publisher.Batch.{
  Alert, EventBlock, Subject, of_block, of_tx, Notification, AgentAlerts, TransactionResults,
  BlockResults, AlertBatch, with_agent_alerts, append_to, with_transaction_results,
  with_block_results, add_batch_agent, is_private, counted, must_decode, append_private,
  append_block, append_tx, append_public, block_number_of, append_alert,
}
use forta_node_tr.Publisher.Batch.Upsert.{gathered, upsert-adds, upsert-keeps}

abbrev pub alerts_of : AgentAlerts → List Alert
alerts_of a = a.alerts

abbrev pub stored_transaction : TransactionResults → List Alert
stored_transaction t = gathered alerts_of t.results

abbrev pub stored_block : BlockResults → List Alert
stored_block b = gathered alerts_of b.results ++ gathered stored_transaction b.transactions

abbrev pub stored : AlertBatch → List Alert
stored bd = gathered alerts_of bd.private_alerts ++ gathered stored_block bd.results

append_to-adds : (a : Alert) (x : AgentAlerts) → Perm (alerts_of (append_to a x)) (a ∷ alerts_of x)
unfolding append_to
append_to-adds a x = perm_append_singleton a x.alerts

with_agent_alerts-adds :
    (a : Alert) (manifest : Text) (xs : List AgentAlerts)
    → Perm
        (gathered alerts_of (with_agent_alerts manifest (append_to a) xs))
        (a ∷ gathered alerts_of xs)
unfolding with_agent_alerts
with_agent_alerts-adds a manifest xs =
    upsert-adds alerts_of (λ a. text_eq a.agent_manifest manifest)
      (record { agent_manifest = manifest; alerts = [] }) (append_to a) refl a xs (append_to-adds a)

-- An alert of a transaction is added to its block.
transaction-adds :
    (a : Alert) (manifest hash : Text) (b : BlockResults)
    → Perm
        (stored_block (
          with_transaction_results hash
            (λ t. record t { results = with_agent_alerts manifest (append_to a) t.results })
            b))
        (a ∷ stored_block b)
unfolding with_transaction_results
transaction-adds a manifest hash b =
    Perm.trans
      (Perm.append_left (gathered alerts_of b.results) (
        upsert-adds stored_transaction (λ t. text_eq t.transaction_hash hash)
          (record { transaction_hash = hash; results = [] })
          (λ t. record t { results = with_agent_alerts manifest (append_to a) t.results }) refl a
          b.transactions (λ t. with_agent_alerts-adds a manifest t.results)))
      (perm_middle (gathered alerts_of b.results) (gathered stored_transaction b.transactions))

with_block_results-adds :
    (a : Alert) (block : EventBlock) (number : ℕ) (f : BlockResults → BlockResults)
    (bd : AlertBatch)
    → ((b : BlockResults) → Perm (stored_block (f b)) (a ∷ stored_block b))
    → Perm (stored (with_block_results block number f bd)) (a ∷ stored bd)
unfolding with_block_results
with_block_results-adds a block number f bd adds =
    Perm.trans
      (Perm.append_left (gathered alerts_of bd.private_alerts) (
        upsert-adds stored_block (λ b. b.block_number == number)
          (record {
            block_hash = block.block_hash;
            block_number = number;
            block_timestamp = block.block_timestamp;
            transactions = [];
            results = [];
          })
          f refl a bd.results adds))
      (perm_middle (gathered alerts_of bd.private_alerts) (gathered stored_block bd.results))

with_block_results-keeps :
    (block : EventBlock) (number : ℕ) (bd : AlertBatch)
    → stored (with_block_results block number (λ b. b) bd) ≡ stored bd
unfolding with_block_results
with_block_results-keeps block number bd =
    ap (λ l. gathered alerts_of bd.private_alerts ++ l)
      (upsert-keeps stored_block (λ b. b.block_number == number)
        (record {
          block_hash = block.block_hash;
          block_number = number;
          block_timestamp = block.block_timestamp;
          transactions = [];
          results = [];
        })
        (λ b. b) refl bd.results (λ b. refl))

-- An alert that may be there, as a list.
abbrev pub alert_list : Option Alert → List Alert
alert_list none = []
alert_list (some a) = a ∷ []

-- From `bd` to `bd'` the alert was stored once, was counted, and the range and the severity stayed.
abbrev pub Appended : Option Alert → AlertBatch → AlertBatch → Type 0
Appended o bd bd' =
    Perm (stored bd') (alert_list o ++ stored bd)
    × (bd'.alert_count ≡ bd.alert_count + length (alert_list o))
    × (bd'.block_start ≡ bd.block_start)
    × (bd'.block_end ≡ bd.block_end)
    × (bd'.max_severity ≡ bd.max_severity)

append_private-Appended :
    (manifest : Text) (o : Option Alert) (bd : AlertBatch)
    → Appended o bd (append_private manifest o bd)
unfolding append_private counted
append_private-Appended manifest none bd = (Perm.rfl, omega arith, refl, refl, refl)
append_private-Appended manifest (some a) bd = (
  Perm.append_right (gathered stored_block bd.results)
      (with_agent_alerts-adds a manifest bd.private_alerts),
  refl,
  refl,
  refl,
  refl,
)

append_public-Appended :
    (manifest : Text) (subject : Subject) (o : Option Alert) (number : ℕ) (bd : AlertBatch)
    → Appended o bd (append_public manifest subject o number bd)
unfolding append_public append_block append_tx counted add_batch_agent with_block_results
append_public-Appended manifest (of_block b) none number bd = (
  subst (λ l. Perm l (stored bd)) (sym (with_block_results-keeps b number bd)) Perm.rfl,
  omega arith,
  refl,
  refl,
  refl,
)
append_public-Appended manifest (of_tx b receipt hash) none number bd = (
  subst (λ l. Perm l (stored bd)) (sym (with_block_results-keeps b number bd)) Perm.rfl,
  omega arith,
  refl,
  refl,
  refl,
)
append_public-Appended manifest (of_block b) (some a) number bd = (
  with_block_results-adds a b number
      (λ b. record b { results = with_agent_alerts manifest (append_to a) b.results }) bd
      (λ b.
        Perm.append_right (gathered stored_transaction b.transactions)
          (with_agent_alerts-adds a manifest b.results)),
  refl,
  refl,
  refl,
  refl,
)
append_public-Appended manifest (of_tx b receipt hash) (some a) number bd = (
  with_block_results-adds a b number
      (with_transaction_results hash
        (λ t. record t { results = with_agent_alerts manifest (append_to a) t.results }))
      bd (transaction-adds a manifest hash),
  refl,
  refl,
  refl,
  refl,
)

-- The block number that was decoded before decodes again, so the call does not panic.
pub append_alert-Appended :
    (lib : Library) (n : Notification) (bd : AlertBatch)
    → (lib.decode_uint64 (block_number_of n.subject)).1 ≡ false
    → (bd' : AlertBatch) × (append_alert lib n bd ≡ some bd') × Appended n.signed_alert bd bd'
unfolding append_alert must_decode
append_alert-Appended lib n bd e = elim (Bool-cases (is_private n)) [
  | inl p ↦ rw p (_, refl, append_private-Appended n.manifest n.signed_alert bd)
  | inr p ↦ rw p (
      rw e (
        _,
        refl,
        append_public-Appended n.manifest n.subject n.signed_alert
            (lib.decode_uint64 (block_number_of n.subject)).0 bd,
      ))
]
