-- ===== src/Scanner/Pool/Attaching.antt =====
-- A status message that attaches agents keeps the invariant of the pool
-- (services/scanner/agentpool/agent_pool.go: handleStatusRunning).
use forta_node_tr.Prelude.{
  ℕ, suc, ◌<◌, List, [], ◌∷◌, Bool, true, false, Option, none, some, ◌≡◌, refl, sym, ◌∙◌, subst,
  text_eq, All, All-of-member,
}
use forta_node_tr.Agents.{AgentConfig, Library, container_name}
use forta_node_tr.Scanner.Agent.{
  Agent, Request, Lane, tx, block, set_requests, end_loop, set_client, set_ready, start_processing,
}
use forta_node_tr.Scanner.Agent.Sound.{attached-Sound}
use forta_node_tr.Scanner.Pool.{Pool, put}
use forta_node_tr.Scanner.Pool.Handlers.{
  Running, agent_name, attach, on_dialed, attach_if, attach_matching, attach_all,
  handle_status_running,
}
use forta_node_tr.Scanner.Pool.Invariant.{Inv, put-Inv, publish-Inv}

pub set_requests_kept :
    (lane : Lane) (rs : List Request) (a : Agent)
    → ((set_requests lane rs a).closed ≡ a.closed) × ((set_requests lane rs a).client ≡ a.client)
unfolding set_requests
set_requests_kept tx rs a = (refl, refl)
set_requests_kept block rs a = (refl, refl)

pub end_loop-closed : (lane : Lane) (a : Agent) → (end_loop lane a).closed ≡ a.closed
unfolding end_loop
end_loop-closed tx a = refl
end_loop-closed block a = refl

attached-closed :
    (c : ℕ) (a : Agent) → (start_processing (set_ready (set_client c a))).closed ≡ a.closed
unfolding start_processing set_ready set_client
attached-closed c a = refl

-- From `r` to `r'` agents were attached.
abbrev Attached : Running → Running → Type 0
Attached r r' = Inv r'.pool × (r'.pool.next ≡ r.pool.next) × (r'.pool.agents ≡ r.pool.agents)

on_dialed-Attached :
    (o : Option ℕ) (k : ℕ) (r : Running)
    → Inv r.pool
    → k < r.pool.next
    → Attached r (on_dialed o k r)
unfolding on_dialed put
on_dialed-Attached none k r i l = (i, refl, refl)
on_dialed-Attached (some c) k r i l = (
  put-Inv k (start_processing (set_ready (set_client c (r.pool.heap k)))) r.pool
      (attached-closed c (r.pool.heap k)) (attached-Sound c (r.pool.heap k) (i.sound k l)) i,
  refl,
  refl,
)

attach_if-Attached :
    (b : Bool) (dial : ℕ → Option ℕ) (k : ℕ) (r : Running)
    → Inv r.pool
    → k < r.pool.next
    → Attached r (attach_if b dial k r)
unfolding attach_if attach
attach_if-Attached false dial k r i l = (i, refl, refl)
attach_if-Attached true dial k r i l =
    on_dialed-Attached (dial r.dialed) k (record r { dialed = suc r.dialed }) i l

module _ (lib : Library) (dial : ℕ → Option ℕ) where
  attach_matching-Attached :
      (cfg : AgentConfig) (ks : List ℕ) (r : Running)
      → Inv r.pool
      → All (λ k. k < r.pool.next) ks
      → Attached r (attach_matching lib dial cfg ks r)
  unfolding attach_matching
  attach_matching-Attached cfg [] r i l = (i, refl, refl)
  attach_matching-Attached cfg (k ∷ ks) r i (l, ls) =
      let b = text_eq (agent_name lib r.pool.heap k) (container_name lib cfg) in
      let r' = attach_if b dial k r in
      let (i', n, a) = attach_if-Attached b dial k r i l in
      let (i'', n', a') =
        attach_matching-Attached cfg ks r' i' (subst (λ m. All (λ k. k < m) ks) (sym n) ls) in
      (i'', n' ∙ n, a' ∙ a)

  attach_all-Attached :
      (payload : List AgentConfig) (r : Running)
      → Inv r.pool
      → Attached r (attach_all lib dial payload r)
  unfolding attach_all
  attach_all-Attached [] r i = (i, refl, refl)
  attach_all-Attached (c ∷ cs) r i =
      let (i', n, a) =
        attach_matching-Attached c r.pool.agents r i
          (All-of-member (λ k. k < r.pool.next) r.pool.agents i.allocated) in
      let (i'', n', a') = attach_all-Attached cs (attach_matching lib dial c r.pool.agents r) i' in
      (i'', n' ∙ n, a' ∙ a)

  pub running-Inv :
      (payload : List AgentConfig) (p : Pool)
      → Inv p
      → Inv (handle_status_running lib dial payload p)
  unfolding handle_status_running
  running-Inv payload p i =
      let r : Running = record { pool = p; dialed = 0; agents_ready = []; to_stop = [] } in
      publish-Inv _ (attach_all lib dial payload r).pool (attach_all-Attached payload r i).0
