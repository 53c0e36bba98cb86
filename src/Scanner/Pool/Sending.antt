-- ===== src/Scanner/Pool/Sending.antt =====
-- SendEvaluateTxRequest and SendEvaluateBlockRequest, and the health of the pool
-- (services/scanner/agentpool/agent_pool.go).
use forta_node_tr.Prelude.{
  ℕ, suc, Text, List, [], ◌∷◌, ◌++◌, Bool, true, false, ◌&&◌, codes, length, if◌then◌else◌, ◌==◌,
}
use forta_node_tr.Agents.{Library, Metric, create_agent_metric, scanner_block, send_agent_metrics}
use forta_node_tr.Scanner.Agent.{
  Agent, Request, Lane, tx, block, requests, set_requests, has_room, tx_buffer_is_full,
  should_process_block,
}
use forta_node_tr.Scanner.Pool.{Pool, put, publish, discard_agent}

-- The name of the metric of a request that is dropped.
pub drop_metric : Lane → Text
drop_metric tx = codes "tx.drop"
drop_metric block = codes "block.drop"

-- What the `select` of a send does.
pub data Choice : Type 0 where
  discard send skip : Choice

-- When the channel `closed` is closed and there is room, Go chooses: the coin.
unfoldable pub select_case : Bool → Bool → Bool → Choice
select_case coin true true = if coin then discard else send
select_case coin true false = discard
select_case coin false true = send
select_case coin false false = skip

module _ (lib : Library) (lane : Lane) (req : Request) where
  unfoldable pub is_eligible : Agent → Bool
  unfolding should_process_block
  is_eligible a = a.ready && should_process_block lib a req.block_number

  unfoldable pub act : Choice → ℕ → Pool → Pool
  unfolding discard_agent put set_requests requests
  act discard k p = discard_agent k p
  act send k p = put k (set_requests lane (requests lane (p.heap k) ++ (req ∷ [])) (p.heap k)) p
  act skip k p = p

  unfoldable pub skip_metrics : Choice → Agent → List Metric
  unfolding create_agent_metric drop_metric
  skip_metrics skip a = create_agent_metric a.config.id (drop_metric lane) 1 ∷ []
  skip_metrics _ a = []

  -- One round of the loop, with the metrics that it adds; an agent that is not eligible is passed.
  unfoldable pub offer_if : Bool → Choice → ℕ → Pool → Pool × List Metric
  unfolding act skip_metrics
  offer_if true choice k p = (act choice k p, skip_metrics choice (p.heap k))
  offer_if false choice k p = (p, [])

  unfoldable pub offer : Bool → ℕ → Pool → Pool × List Metric
  unfolding is_eligible select_case has_room offer_if
  offer coin k p =
      let a = p.heap k in offer_if (is_eligible a) (select_case coin a.closed (has_room lane a)) k p

  -- The loop over the agents, with a coin for each address.
  unfoldable pub offer_all : (ℕ → Bool) → List ℕ → Pool → Pool × List Metric
  unfolding offer
  offer_all coins [] p = (p, [])
  offer_all coins (k ∷ ks) p =
      let (p', ms) = offer (coins k) k p in
      let (p'', ms') = offer_all coins ks p' in (p'', ms ++ ms')

-- `encoded` tells if the request could be encoded.
module _ (lib : Library) (encoded : Bool) (coins : ℕ → Bool) (req : Request) where
  unfoldable pub send_evaluate_tx_request : Pool → Pool
  unfolding offer_all publish send_agent_metrics
  send_evaluate_tx_request p =
      let (p', ms) = offer_all lib tx req coins p.agents p in
      if encoded then publish (send_agent_metrics ms) p' else p

  unfoldable pub send_evaluate_block_request : Pool → Pool
  unfolding offer_all publish send_agent_metrics
  send_evaluate_block_request p =
      let (p', ms) = offer_all lib block req coins p.agents p in
      let number = (lib.decode_uint64 req.block_number).0 in
      if encoded then publish (scanner_block number ∷ send_agent_metrics ms) p' else p

pub count_full : (ℕ → Agent) → List ℕ → ℕ
unfolding tx_buffer_is_full
count_full h [] = 0
count_full h (k ∷ ks) = if tx_buffer_is_full (h k) then suc (count_full h ks) else count_full h ks

-- Health: whether the pool is failing, the number of agents, and of those that lag.
pub health : Pool → Bool × ℕ × ℕ
unfolding count_full
health p = (length p.agents == 0, length p.agents, count_full p.heap p.agents)
