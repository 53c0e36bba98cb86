-- ===== src/Publisher/Batch/Preparing.antt =====
-- The loop that collects notifications in a batch until it is full or the time is out
-- (services/publisher/publisher.go: prepareLatestBatch).
use forta_node_tr.Prelude.{
  ℕ, ◌+◌, ◌==◌, ltb, List, [], ◌∷◌, ◌++◌, Bool, true, false, ◌&&◌, ◌||◌, Option, none, some,
  if◌then◌else◌,
}
use forta_node_tr.Agents.{Library}
use forta_node_tr.Publisher.Batch.{
  Finding, Alert, Notification, AlertBatch, new_batch, block_number_of, append_alert,
}

-- One batch as it is collected: how many notifications with alerts were taken, and the test alerts
-- that were passed to their own logger.
pub record Collection : Type 0 where
  pub taken : ℕ
  pub batch : AlertBatch
  pub test_alerts : List Alert

unfoldable pub widen : ℕ → AlertBatch → AlertBatch
widen n bd = record bd {
  block_start =
      if bd.block_start == 0 || (ltb 0 bd.block_start && ltb n bd.block_start)
      then n
      else bd.block_start;
  block_end =
      if bd.block_end == 0 || (ltb 0 bd.block_end && ltb bd.block_end n) then n else bd.block_end;
}

-- The severity of an alert is read from its finding, without a check that there is one.
unfoldable pub raise_to : Option Finding → AlertBatch → Option AlertBatch
raise_to none bd = none
raise_to (some f) bd =
    some (if ltb bd.max_severity f.severity then record bd { max_severity = f.severity } else bd)

unfoldable pub raise_severity : Option Alert → AlertBatch → Option AlertBatch
unfolding raise_to
raise_severity none bd = some bd
raise_severity (some a) bd = raise_to a.finding bd

unfoldable pub then_append : Library → Notification → Option AlertBatch → Option AlertBatch
unfolding append_alert
then_append lib n none = none
then_append lib n (some bd) = append_alert lib n bd

unfoldable pub set_batch : Option AlertBatch → Collection → Option Collection
set_batch none c = none
set_batch (some bd) c = some (record c { batch = bd })

unfoldable pub count_taken : Option Alert → Collection → Collection
count_taken none c = c
count_taken (some a) c = record c { taken = c.taken + 1 }

-- A notification that is no test alert; a block number that does not parse is logged.
unfoldable pub collect_at : Library → Notification → ℕ × Bool → Collection → Option Collection
unfolding set_batch then_append raise_severity widen
collect_at lib n (number, true) c = some c
collect_at lib n (number, false) c =
    set_batch (then_append lib n (raise_severity n.signed_alert (widen number c.batch))) c

unfoldable pub test_alert : Option Alert → Option Alert
test_alert none = none
test_alert (some a) = if a.is_test then some a else none

unfoldable pub log_test_alert : Bool → Alert → Collection → Collection
log_test_alert disable a c =
    if disable then c else record c { test_alerts = c.test_alerts ++ (a ∷ []) }

-- `disable` is the setting that drops test alerts.
unfoldable pub collect_as :
    Option Alert → Library → Bool → Notification → Collection → Option Collection
unfolding log_test_alert collect_at count_taken
collect_as (some a) lib disable n c = some (log_test_alert disable a c)
collect_as none lib disable n c =
    collect_at lib n (lib.decode_uint64 (block_number_of n.subject)) (count_taken n.signed_alert c)

unfoldable pub collect : Library → Bool → Notification → Collection → Option Collection
unfolding collect_as test_alert
collect lib disable n c = collect_as (test_alert n.signed_alert) lib disable n c

-- What the select of prepareLatestBatch receives.
pub data Event : Type 0 where
  notified : Notification → Event
  timed_out : Event

-- The loop: the batch that is passed on, with the events that are left for the next one; or the
-- events ended first; or a panic.
pub data Prepared : Type 0 where
  passed_on : AlertBatch → List Event → Prepared
  waiting : Collection → Prepared
  panicked : Prepared

module _ (lib : Library) (disable : Bool) (batch_limit : ℕ) where
  unfoldable pub prepare_from : List Event → Option Collection → Prepared
  unfolding collect
  prepare_from es none = panicked
  prepare_from [] (some c) = if ltb c.taken batch_limit then waiting c else passed_on c.batch []
  prepare_from (timed_out ∷ es) (some c) =
      passed_on c.batch (if ltb c.taken batch_limit then es else timed_out ∷ es)
  prepare_from (notified n ∷ es) (some c) =
      let rest = prepare_from es (collect lib disable n c) in
      if ltb c.taken batch_limit then rest else passed_on c.batch (notified n ∷ es)

  unfoldable pub prepare_latest_batch : ℕ → List Event → Prepared
  unfolding prepare_from new_batch
  prepare_latest_batch chain_id es =
      prepare_from es (some (record { taken = 0; batch = new_batch chain_id; test_alerts = [] }))
