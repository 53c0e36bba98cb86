-- ===== src/Scanner/Agent.antt =====
-- One agent of the pool (services/scanner/agentpool/poolagent/agent.go). A channel is the list of
-- what is in its buffer; `ready` and `closed` tell if those channels are closed.
pub mod Sound
use forta_node_tr.Prelude.{
  ℕ, ◌+◌, ◌-◌, Text, List, [], ◌∷◌, Bool, true, false, ◌&&◌, Option, none, some, ltb, leb, ◌==◌,
  length, if◌then◌else◌,
}
use forta_node_tr.Agents.{AgentConfig, Library}
use forta_node_tr.Scanner.Errors.{ErrorCounter, new_error_counter}

abbrev pub default_buffer_size : ℕ
default_buffer_size = 2000

abbrev pub max_findings : ℕ
max_findings = 10

-- `TxRequest` and `BlockRequest`: what is sent to the agent, and the block number in it.
pub record Request : Type 0 where
  pub content : Text
  pub block_number : Text

-- Transactions and blocks go through channels and goroutines of their own.
pub data Lane : Type 0 where
  tx block : Lane

-- `tx_loops` and `block_loops` count the goroutines that serve the channels.
pub record Agent : Type 0 where
  pub config : AgentConfig
  pub tx_requests : List Request
  pub block_requests : List Request
  pub err_counter : ErrorCounter
  pub client : Option ℕ
  pub ready : Bool
  pub closed : Bool
  pub tx_loops : ℕ
  pub block_loops : ℕ

pub is_critical_err : Text → Bool
is_critical_err err = false

unfoldable pub new_agent : AgentConfig → Agent
unfolding new_error_counter
new_agent cfg = record {
  config = cfg;
  tx_requests = [];
  block_requests = [];
  err_counter = new_error_counter 3 is_critical_err;
  client = none;
  ready = false;
  closed = false;
  tx_loops = 0;
  block_loops = 0;
}

unfoldable pub requests : Lane → Agent → List Request
requests tx a = a.tx_requests
requests block a = a.block_requests

unfoldable pub set_requests : Lane → List Request → Agent → Agent
set_requests tx rs a = record a { tx_requests = rs }
set_requests block rs a = record a { block_requests = rs }

pub loops : Lane → Agent → ℕ
loops tx a = a.tx_loops
loops block a = a.block_loops

unfoldable pub end_loop : Lane → Agent → Agent
end_loop tx a = record a { tx_loops = a.tx_loops - 1 }
end_loop block a = record a { block_loops = a.block_loops - 1 }

unfoldable pub tx_buffer_is_full : Agent → Bool
tx_buffer_is_full a = length a.tx_requests == default_buffer_size

-- A send to the buffered channel does not block.
unfoldable pub has_room : Lane → Agent → Bool
has_room lane a = ltb (length (requests lane a)) default_buffer_size

unfoldable pub set_client : ℕ → Agent → Agent
set_client c a = record a { client = some c }

unfoldable pub set_ready : Agent → Agent
set_ready a = record a { ready = true }

unfoldable pub start_processing : Agent → Agent
start_processing a = record a { tx_loops = a.tx_loops + 1; block_loops = a.block_loops + 1 }

abbrev client_list : Option ℕ → List ℕ
client_list none = []
client_list (some c) = c ∷ []

-- `Close`: the agent, and the clients that it closes.
unfoldable pub close : Agent → Agent × List ℕ
close a = if a.closed then (a, []) else (record a { closed = true }, client_list a.client)

at_least : Option ℕ → ℕ → Bool
at_least none n = true
at_least (some b) n = leb b n

at_most : Option ℕ → ℕ → Bool
at_most none n = true
at_most (some b) n = leb n b

unfoldable pub should_process_block : Library → Agent → Text → Bool
unfolding at_least at_most
should_process_block lib a block_number_hex =
    let n = (lib.decode_uint64 block_number_hex).0 in
    at_least a.config.start_block n && at_most a.config.stop_block n
