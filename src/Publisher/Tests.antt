-- ===== src/Publisher/Tests.antt =====
-- Runs of the publisher: batches are collected and published, one of them to an alert API that
-- fails, and the theorems about it at these inputs (services/publisher/publisher.go).
use forta_node_tr.Prelude.{
  Ends, ℕ, suc, Text, codes, List, [], ◌∷◌, ◌++◌, Bool, true, false, none, some, All, length,
  if◌then◌else◌, ◌≡◌, ◌⊎◌, refl, ok, err, is_empty,
}
use forta_node_tr.Agents.{Library}
use forta_node_tr.Publisher.Batch.{
  Alert, EventBlock, of_block, of_tx, Notification, AlertBatch, new_batch, upsert,
  with_agent_alerts, append_to, with_transaction_results, with_block_results, processed,
  add_batch_agent, is_private, counted, must_decode, append_private, append_block, append_tx,
  append_public, block_number_of, append_alert,
}
use forta_node_tr.Publisher.Batch.Preparing.{
  widen, raise_to, raise_severity, then_append, set_batch, count_taken, collect_at, test_alert,
  log_test_alert, collect_as, collect, Event, notified, timed_out, Prepared, passed_on, waiting,
  panicked, prepare_from, prepare_latest_batch,
}
use forta_node_tr.Publisher.Batch.Growing.{has_finding, is_plausible}
use forta_node_tr.Publisher.Batch.Passing.{Passed, prepare_latest_batch_lem}
use forta_node_tr.Publisher.Publishing.{
  Settings, Outgoing, Services, Publisher, should_skip_publishing, try_flush, outgoing, on_services,
  skip, log_post, store_receipt, post, authorize, summarize, store_ref, publish_public,
  publish_signed, encode_and_publish, publish_next_batch,
}
use forta_node_tr.Publisher.Publishing.Chaining.{
  is_blocked, PostedOnce, Unposted, publish_next_batch_lem,
}

-- A block number is a text of that length.
abbrev lib : Library
lib = record {
  split_image_ref = λ t. (t, t);
  shorten_string = λ t n. t;
  decode_uint64 = λ t. (length t, is_empty t);
}

abbrev alert : Text → Bool → ℕ → Alert
alert id hidden severity = record {
  id = id;
  is_test = false;
  finding = some (record { is_private = hidden; severity = severity });
}

abbrev block_at : Text → EventBlock
block_at number = record {
  block_number = number;
  block_hash = codes "0xb";
  block_timestamp = codes "0x1";
}

-- An alert about a transaction in block 4, a private one about block 2, and one for later.
abbrev in_tx : Notification
in_tx = record {
  manifest = codes "Qm1";
  signed_alert = some (alert (codes "a") false 3);
  subject = of_tx (block_at (codes "0x00")) (codes "0xr") (codes "0xt");
  response_private = none;
}

abbrev hidden : Notification
hidden = record {
  manifest = codes "Qm2";
  signed_alert = some (alert (codes "b") true 5);
  subject = of_block (block_at (codes "0x"));
  response_private = none;
}

abbrev events : List Event
events = notified in_tx ∷ notified hidden ∷ []

abbrev block_range : Prepared → ℕ × ℕ × ℕ
block_range (passed_on b rest) = (b.block_start, b.block_end, b.alert_count)
block_range (waiting c) = (0, 0, 0)
block_range panicked = (0, 0, 0)

collected_run :
    block_range (prepare_latest_batch lib true 10 1 (events ++ (timed_out ∷ []))) ≡ (2, 4, 2)
unfolding new_batch upsert with_agent_alerts append_to with_transaction_results with_block_results
    processed add_batch_agent is_private counted must_decode append_private append_block append_tx
    append_public block_number_of append_alert widen raise_to raise_severity then_append set_batch
    count_taken collect_at test_alert log_test_alert collect_as collect prepare_from
    prepare_latest_batch
collected_run = refl

-- With a limit of one alert the second is left for the next batch.
limited_run : block_range (prepare_latest_batch lib true 1 1 events) ≡ (4, 4, 1)
unfolding new_batch upsert with_agent_alerts append_to with_transaction_results with_block_results
    processed add_batch_agent is_private counted must_decode append_private append_block append_tx
    append_public block_number_of append_alert widen raise_to raise_severity then_append set_batch
    count_taken collect_at test_alert log_test_alert collect_as collect prepare_from
    prepare_latest_batch
limited_run = refl

events-plausible : All (λ e. is_plausible lib e ≡ true) events
unfolding is_plausible has_finding block_number_of
events-plausible = (refl, (refl, tt))

prepare_latest_batch_lem_example :
    Passed lib true 1
      (events ++ (timed_out ∷ []))
      (prepare_latest_batch lib true 1 1 (events ++ (timed_out ∷ [])))
prepare_latest_batch_lem_example = prepare_latest_batch_lem lib true 1 1 events [] events-plausible

-- The references are numbered; `works` tells if the alert API answers.
abbrev services_with : Bool → Services ℕ (Unit {0})
services_with works = record {
  sign_batch = λ o n. (ok (codes "signed"), n);
  encode = λ t n. (ok t, n);
  send_alerts = λ o n. (ok tt, n);
  calculate_file_hash = λ t n. (ok (codes "Qm" ++ codes "1"), suc n);
  put_batch_ref = λ t n. (ok tt, n);
  sign_summary = λ a b o n. (ok (codes "summary"), n);
  create_scanner_jwt = λ t n. (ok (codes "jwt"), n);
  post_batch = λ a b c o d n.
      if works then (ok (some (codes "receipt")), n) else (err (codes "unavailable"), n);
  put_receipt = λ t n. (ok tt, n);
}

abbrev settings : Settings
settings = record {
  skip_publish = false;
  skip_empty = true;
  private_mode = false;
  scanner_version = none;
}

abbrev start : Publisher ℕ (Unit {0})
start = record {
  services = 0;
  last_batch_ref = some (codes "Qm0");
  last_receipt = none;
  pending_metrics = tt ∷ [];
  latest_block_input = 0;
  skip_reasons = [];
  posts = [];
}

abbrev one_alert : AlertBatch
one_alert = record (new_batch 1) { alert_count = 1; block_end = 4 }

-- References, parents and metrics.
abbrev posts_of : List (Text × Outgoing (Unit {0})) → List (Text × Text × List (Unit {0}))
posts_of [] = []
posts_of ((cid, o) ∷ os) = (cid, o.parent, o.metrics) ∷ posts_of os

-- What is posted refers to the batch before it, and takes the metrics.
posted_run :
    posts_of (publish_next_batch (services_with true) settings true one_alert start).1.posts
    ≡ (codes "Qm1", codes "Qm0", tt ∷ []) ∷ []
unfolding new_batch should_skip_publishing try_flush outgoing on_services skip log_post
    store_receipt post authorize summarize store_ref publish_public publish_signed
    encode_and_publish publish_next_batch
posted_run = refl

-- After a failed post the next batch refers to one that the alert API does not have.
failed_post_run :
    (publish_next_batch (services_with false) settings true one_alert start).1.last_batch_ref
    ≡ some (codes "Qm1")
unfolding new_batch should_skip_publishing try_flush outgoing on_services skip log_post
    store_receipt post authorize summarize store_ref publish_public publish_signed
    encode_and_publish publish_next_batch
failed_post_run = refl

empty_run :
    (publish_next_batch (services_with true) settings true (new_batch 1) start).1.skip_reasons
    ≡ codes "because there are no alerts and skipEmpty is enabled" ∷ []
unfolding new_batch should_skip_publishing try_flush outgoing on_services skip log_post
    store_receipt post authorize summarize store_ref publish_public publish_signed
    encode_and_publish publish_next_batch
empty_run = refl

publish_next_batch_lem_example :
    Ends
      (λ _ t.
        ((is_blocked settings one_alert ≡ true)
          × Unposted (services_with true) settings true one_alert start t)
        ⊎ ((is_blocked settings one_alert ≡ false)
            × (cid : Text) × PostedOnce (services_with true) settings true one_alert start cid t))
      (λ _ t.
        Unposted (services_with true) settings true one_alert start t
        ⊎ ((is_blocked settings one_alert ≡ false)
            × (cid : Text) × (((t.posts ≡ start.posts) × (t.last_batch_ref ≡ some cid))
                ⊎ PostedOnce (services_with true) settings true one_alert start cid t)))
      (publish_next_batch (services_with true) settings true one_alert start)
publish_next_batch_lem_example =
    publish_next_batch_lem (services_with true) settings true one_alert start
