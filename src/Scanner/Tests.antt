-- ===== src/Scanner/Tests.antt =====
-- Runs of the agent pool: two agents come and go, and the theorems about the pool at these inputs
-- (services/scanner/agentpool).
use mathlib.Core.List.{map}
use forta_node_tr.Prelude.{
  ℕ, zero, suc, ◌≤◌, ◌<◌, ==_iff, Text, codes, text_eq, List, [], ◌∷◌, ◌++◌, Bool, true, false, not,
  Option, none, some, All, member, select, length, ◌≡◌, ◌↔◌, refl, arith, is_empty,
}
use forta_node_tr.Agents.{
  Library, AgentConfig, container_name, action_run, action_stop, scanner_block, send_agent_metrics,
  publish_any,
}
use forta_node_tr.Scanner.Errors.{new_error_counter, too_many_errs}
use forta_node_tr.Scanner.Errors.Streak.{after_calls, streak, too_many_errs_iff}
use forta_node_tr.Scanner.Agent.{
  Request, tx, block, Agent, new_agent, requests, set_requests, has_room, set_client, set_ready,
  start_processing, close, should_process_block,
}
use forta_node_tr.Scanner.Pool.{Pool, write, put, publish, close_agent, allocate, discard_agent}
use forta_node_tr.Scanner.Pool.Handlers.{
  add_unless, keep_if, drop_if, on_dialed, attach, attach_if, agent_name, in_pool, in_payload,
  add_missing, keep_listed, handle_agent_versions_update, attach_matching, attach_all,
  handle_status_running, drop_stopped, handle_status_stopped,
}
use forta_node_tr.Scanner.Pool.Sending.{
  select_case, is_eligible, act, skip_metrics, offer_if, offer, offer_all, send_evaluate_tx_request,
  send_evaluate_block_request,
}
use forta_node_tr.Scanner.Pool.Processing.{
  findings, take, dropped_metrics, truncated, emit, on_reply, invoke, serve, receive, process,
}
use forta_node_tr.Scanner.Pool.Additions.{Allocated}
use forta_node_tr.Scanner.Pool.Steps.{
  update, running, Reach, here, next, new_agent_pool, reach_open, reach_bounds,
}
use forta_node_tr.Scanner.Pool.Versions.{handle_agent_versions_update_lem}
use forta_node_tr.Scanner.Pool.Delivery.{Sent, send_evaluate_lem}

abbrev lib : Library
lib = record {
  split_image_ref = λ t. (t, t);
  shorten_string = λ t n. take n t;
  decode_uint64 = λ t. (length t, is_empty t);
}

abbrev config : Text → AgentConfig
config id = record {
  id = id;
  image = codes "disco.forta.network/bafy@sha256:ab";
  manifest = codes "Qm";
  is_local = false;
  start_block = some 2;
  stop_block = none;
}

abbrev both : List AgentConfig
both = config (codes "0x1") ∷ config (codes "0x2") ∷ []

-- The first dial is answered, the second is not.
abbrev dial : ℕ → Option ℕ
dial zero = some 7
dial (suc n) = none

abbrev empty_heap : ℕ → Agent
empty_heap k = new_agent (config [])

abbrev started : Pool
started = handle_agent_versions_update lib both (new_agent_pool empty_heap)

abbrev attached : Pool
attached = handle_status_running lib dial both started

abbrev attached-Reach : Reach lib (new_agent_pool empty_heap) attached
attached-Reach = next (next here (update both)) (running dial both)

abbrev request_at_3 : Request
request_at_3 = record { content = codes "tx"; block_number = codes "0x3" }

abbrev request_at_0 : Request
request_at_0 = record { content = codes "tx"; block_number = [] }

-- The agent that was dialed receives the request, the other is not ready.
abbrev lengths : Pool → ℕ × ℕ
lengths p = (length (p.heap 0).tx_requests, length (p.heap 1).tx_requests)

abbrev all_of : Pool → List ℕ × ℕ × Bool
all_of p = (p.agents, p.next, p.panicked)

started_run : all_of started ≡ (0 ∷ 1 ∷ [], 2, false)
unfolding container_name new_agent new_error_counter publish_any publish allocate put write
    close_agent close add_unless keep_if in_pool in_payload add_missing keep_listed
    handle_agent_versions_update new_agent_pool take text_eq
started_run = refl

sent_run : lengths (send_evaluate_tx_request lib true (λ k. true) request_at_3 attached) ≡ (1, 0)
unfolding container_name new_agent new_error_counter publish_any publish allocate put write
    close_agent close add_unless keep_if in_pool in_payload add_missing keep_listed
    handle_agent_versions_update new_agent_pool take text_eq on_dialed attach attach_if
    attach_matching attach_all handle_status_running set_client set_ready start_processing
    send_evaluate_tx_request offer_all offer offer_if act select_case is_eligible
    should_process_block has_room requests set_requests skip_metrics send_agent_metrics
    discard_agent
sent_run = refl

too_early_run :
    lengths (send_evaluate_tx_request lib true (λ k. true) request_at_0 attached) ≡ (0, 0)
unfolding container_name new_agent new_error_counter publish_any publish allocate put write
    close_agent close add_unless keep_if in_pool in_payload add_missing keep_listed
    handle_agent_versions_update new_agent_pool take text_eq on_dialed attach attach_if
    attach_matching attach_all handle_status_running set_client set_ready start_processing
    send_evaluate_tx_request offer_all offer offer_if act select_case is_eligible
    should_process_block has_room requests set_requests skip_metrics send_agent_metrics
    discard_agent
too_early_run = refl

-- Of eleven findings ten are kept.
served_run :
    map
      (λ x. length x.1.findings)
      (process tx
        (findings (map (λ c. c ∷ []) (codes "abcdefghijk")))
        0
        (send_evaluate_tx_request lib true (λ k. true) request_at_3 attached)).results
    ≡ 10 ∷ []
unfolding container_name new_agent new_error_counter publish_any publish allocate put write
    close_agent close add_unless keep_if in_pool in_payload add_missing keep_listed
    handle_agent_versions_update new_agent_pool take text_eq on_dialed attach attach_if
    attach_matching attach_all handle_status_running set_client set_ready start_processing
    send_evaluate_tx_request offer_all offer offer_if act select_case is_eligible
    should_process_block has_room requests set_requests skip_metrics send_agent_metrics
    discard_agent process receive serve invoke on_reply emit truncated dropped_metrics
served_run = refl

stopped_run :
    (handle_status_stopped lib (config (codes "0x1") ∷ []) attached).closed_clients ≡ 7 ∷ []
unfolding container_name new_agent new_error_counter publish_any publish allocate put write
    close_agent close add_unless keep_if in_pool in_payload add_missing keep_listed
    handle_agent_versions_update new_agent_pool take text_eq on_dialed attach attach_if
    attach_matching attach_all handle_status_running set_client set_ready start_processing
    drop_stopped drop_if handle_status_stopped
stopped_run = refl

two_made : 1 < attached.next
unfolding container_name new_agent new_error_counter publish_any publish allocate put write
    close_agent close add_unless keep_if in_pool in_payload add_missing keep_listed
    handle_agent_versions_update new_agent_pool take text_eq on_dialed attach attach_if
    attach_matching attach_all handle_status_running set_client set_ready start_processing
two_made = omega arith

reach_open_example :
    ((member 1 attached.agents ≡ true) ↔ ((attached.heap 1).closed ≡ false))
    × (attached.panicked ≡ false)
reach_open_example = reach_open lib empty_heap attached-Reach 1 two_made

reach_bounds_example :
    (length (requests tx (attached.heap 1)) ≤ 2000)
    × ((has_room tx (attached.heap 1) ≡ false) ↔ (length (requests tx (attached.heap 1)) ≡ 2000))
    × All (λ x. length x.1.findings ≤ 10) attached.results
reach_bounds_example = reach_bounds lib empty_heap attached-Reach tx 1 two_made

send_evaluate_lem_example :
    Sent lib tx request_at_3 [] attached
      (send_evaluate_tx_request lib true (λ k. false) request_at_3 attached)
    × Sent lib block request_at_3
        (scanner_block 3 ∷ [])
        attached
        (send_evaluate_block_request lib true (λ k. false) request_at_3 attached)
    × (send_evaluate_tx_request lib false (λ k. false) request_at_3 attached ≡ attached)
    × (send_evaluate_block_request lib false (λ k. false) request_at_3 attached ≡ attached)
send_evaluate_lem_example =
    send_evaluate_lem lib empty_heap attached attached-Reach (λ k. false) request_at_3

started-Allocated : Allocated started.next started.agents
unfolding container_name new_agent new_error_counter publish_any publish allocate put write
    close_agent close add_unless keep_if in_pool in_payload add_missing keep_listed
    handle_agent_versions_update new_agent_pool take text_eq member
started-Allocated k m = ground (arith, m, ==_iff 0 k, ==_iff 1 k)

-- The second agent leaves the list of versions.
handle_agent_versions_update_lem_example :
    let latest = config (codes "0x1") ∷ config (codes "0x3") ∷ [] in
    let p' = handle_agent_versions_update lib latest started in
    All (λ c. in_pool lib p'.heap p'.agents c ≡ true) latest
    × All (λ k. in_payload lib latest (agent_name lib p'.heap k) ≡ true) p'.agents
    × All
        (λ k. (member k p'.agents ≡ true) × (p'.heap k ≡ started.heap k))
        (select (λ k. in_payload lib latest (agent_name lib started.heap k)) started.agents)
    × (p'.published
        ≡ started.published
          ++ (publish_any action_run
                (select (λ c. not (in_pool lib started.heap started.agents c)) latest)
              ++ publish_any action_stop (
                  map
                    (λ k. (started.heap k).config)
                    (select
                      (λ k. not (in_payload lib latest (agent_name lib started.heap k)))
                      started.agents))))
handle_agent_versions_update_lem_example =
    handle_agent_versions_update_lem lib (config (codes "0x1") ∷ config (codes "0x3") ∷ []) started
      started-Allocated

-- Two errors, a success, and errors again: the third in a row is one too many.
too_many_errs_iff_example :
    ((too_many_errs
        (some (codes "c"))
        (after_calls 3 (λ e. true) (some (codes "b") ∷ some (codes "a") ∷ none ∷ []))).0
      ≡ true)
    ↔ (3
        ≤ streak 3 (λ e. true) (some (codes "c") ∷ some (codes "b") ∷ some (codes "a") ∷ none ∷ []))
too_many_errs_iff_example =
    too_many_errs_iff 3 (λ e. true) (some (codes "c"))
      (some (codes "b") ∷ some (codes "a") ∷ none ∷ []) (omega arith) (omega arith)
