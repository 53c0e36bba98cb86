-- ===== src/Scanner/Pool/Preserved.antt =====
-- Each handler, each send and each round of a goroutine keeps the invariant of the pool
-- (services/scanner/agentpool/agent_pool.go and poolagent/agent.go).
use forta_node_tr.Prelude.{
  is_some, Distinct-select, Distinct, member-select, ℕ, ◌≤◌, ◌<◌, List, [], ◌∷◌, ◌++◌, Bool, true,
  false, true≢false, not, Option, none, some, member, ◌≡◌, refl, sym, ap, ◌∙◌, subst, arith, length,
  length-append,
}
use forta_node_tr.Agents.{AgentConfig, Library}
use forta_node_tr.Scanner.Errors.{too_many_errs}
use forta_node_tr.Scanner.Agent.{
  Agent, Request, Lane, requests, set_requests, loops, end_loop, has_room,
}
use forta_node_tr.Scanner.Agent.Sound.{
  Sound, room-Sound, served-Sound, set_requests-Sound, end_loop-Sound, too_many_errs-Sound,
}
use forta_node_tr.Scanner.Pool.{Pool, put}
use forta_node_tr.Scanner.Pool.Handlers.{drop_stopped, handle_status_stopped}
use forta_node_tr.Scanner.Pool.Sending.{offer, offer_if, act, select_case, is_eligible, send}
use forta_node_tr.Scanner.Pool.Processing.{
  Reply, findings, failed, process, receive, serve, on_error, invoke, on_reply, emit,
  dropped_metrics,
}
use forta_node_tr.Scanner.Pool.Loops.{Dropped, is_listed, drop_stopped-Dropped}
use forta_node_tr.Scanner.Pool.Additions.{write-same}
use forta_node_tr.Scanner.Pool.Invariant.{
  close_where-Sound, close_where-closed, Inv, put-Inv, publish-Inv, discard_agent-Inv,
}
use forta_node_tr.Scanner.Pool.Attaching.{set_requests_kept, end_loop-closed}

module _ (lib : Library) (payload : List AgentConfig) (p : Pool) (i : Inv p) where
  abbrev cfg_of : ℕ → AgentConfig
  cfg_of k = (p.heap k).config

  abbrev dropped : List ℕ × Pool
  dropped = drop_stopped lib payload p.agents ([], p)

  dropped-Dropped : Dropped lib payload cfg_of p.agents ([], p) dropped
  dropped-Dropped = drop_stopped-Dropped lib payload cfg_of p.agents ([], p) (λ k. refl)

  abbrev is_stopped : ℕ → Bool
  is_stopped = is_listed lib payload cfg_of

  pub stopped-Inv : Inv (handle_status_stopped lib payload p)
  unfolding handle_status_stopped
  stopped-Inv =
      let (heap, kept, (same, published, calm)) = dropped-Dropped in
      let members =
        λ (k : ℕ). ap (member k) kept ∙ member-select (λ k. not (is_stopped k)) k p.agents in
      record {
        allocated =
            λ k m. subst (λ n. k < n) (sym same) (i.allocated k (ground (arith, members k)));
        distinct =
            subst Distinct (sym kept)
              (Distinct-select (λ k. not (is_stopped k)) p.agents i.distinct);
        open_iff = λ k l.
            members k
            ∙ close_where-closed is_stopped p.agents p.heap k
                (i.open_iff k (subst (λ n. k < n) same l))
            ∙ ap (λ a. not a.closed) (sym (heap k));
        sound = λ k l. subst Sound (sym (heap k)) (
            close_where-Sound is_stopped p.agents p.heap k (i.sound k (subst (λ n. k < n) same l)));
        calm = calm ∙ i.calm;
      }

-- A send keeps the agent as open as it was, and its buffer in bounds.
module _ (lib : Library) (lane : Lane) (req : Request) (k : ℕ) (p : Pool) (l : k < p.next)
    (i : Inv p) where
  send-Inv : has_room lane (p.heap k) ≡ true → Inv (act lib lane req send k p)
  unfolding act has_room
  send-Inv e =
      let a = p.heap k in
      let rs = requests lane a ++ (req ∷ []) in
      put-Inv k (set_requests lane rs a) p (set_requests_kept lane rs a).0
        (set_requests-Sound lane rs a
          (ground (arith, e, length-append (requests lane a) (req ∷ []))) (i.sound k l))
        i

  act-Inv :
      (coin closed room : Bool)
      → (p.heap k).closed ≡ closed
      → has_room lane (p.heap k) ≡ room
      → Inv (act lib lane req (select_case coin closed room) k p)
  unfolding select_case act
  act-Inv true true true c e = discard_agent-Inv k p c i
  act-Inv false true true c e = send-Inv e
  act-Inv coin true false c e = discard_agent-Inv k p c i
  act-Inv coin false true c e = send-Inv e
  act-Inv coin false false c e = i

  offer_if-Inv :
      (b coin : Bool)
      → Inv
          (offer_if lib lane req b
            (select_case coin (p.heap k).closed (has_room lane (p.heap k)))
            k
            p).0
  unfolding offer_if
  offer_if-Inv true coin = act-Inv coin (p.heap k).closed (has_room lane (p.heap k)) refl refl
  offer_if-Inv false coin = i

  pub offer-Inv : (coin : Bool) → Inv (offer lib lane req coin k p).0
  unfolding offer
  offer-Inv coin = offer_if-Inv (is_eligible lib lane req (p.heap k)) coin

-- A goroutine that runs has a client, and never shuts its agent down.
module _ (lane : Lane) (reply : Reply) (k : ℕ) where
  on_reply-Inv :
      (reply : Reply) (r : Request) (p : Pool)
      → k < p.next
      → Inv p
      → Inv (on_reply lane reply r k p)
  unfolding on_reply on_error emit
  on_reply-Inv (findings fs) r p l i =
      let i' = publish-Inv (dropped_metrics (p.heap k) fs) p i in
      record {
        allocated = i'.allocated;
        distinct = i'.distinct;
        open_iff = i'.open_iff;
        sound = i'.sound;
        calm = i'.calm;
      }
  on_reply-Inv (failed e) r p l i =
      let a = p.heap k in
      let (never, s) = too_many_errs-Sound e a (i.sound k l) in
      let a' : Agent = record a { err_counter = (too_many_errs (some e) a.err_counter).1 } in
      subst (λ b. Inv (on_error lane b k (put k a' p))) (sym never) (put-Inv k a' p refl s i)

  invoke-Inv :
      (o : Option ℕ) (r : Request) (p : Pool)
      → is_some o ≡ true
      → k < p.next
      → Inv p
      → Inv (invoke o lane reply r k p)
  unfolding invoke
  invoke-Inv none r p e l i = absurd (true≢false (sym e))
  invoke-Inv (some c) r p e l i = on_reply-Inv reply r p l i

  serve-Inv :
      (b : Bool) (r : Request) (p : Pool)
      → is_some (p.heap k).client ≡ true
      → k < p.next
      → Inv p
      → Inv (serve b lane reply r k p)
  unfolding serve
  serve-Inv true r p e l i =
      put-Inv k (end_loop lane (p.heap k)) p (end_loop-closed lane (p.heap k))
        (end_loop-Sound lane (p.heap k) (i.sound k l)) i
  serve-Inv false r p e l i = invoke-Inv (p.heap k).client r p e l i

  receive-Inv :
      (rs : List Request) (p : Pool)
      → length rs ≤ 2000
      → is_some (p.heap k).client ≡ true
      → k < p.next
      → Inv p
      → Inv (receive rs lane reply k p)
  unfolding receive put
  receive-Inv [] p n e l i = i
  receive-Inv (r ∷ rs) p n e l i =
      let a = p.heap k in
      let a' = set_requests lane rs a in
      serve-Inv (p.heap k).closed r (put k a' p)
        (ap (λ x. is_some x.client) (write-same k a' p.heap)
          ∙ ap is_some (set_requests_kept lane rs a).1
          ∙ e)
        l
        (put-Inv k a' p (set_requests_kept lane rs a).0
          (set_requests-Sound lane rs a (omega arith) (i.sound k l)) i)

  pub process-Inv :
      (p : Pool) → k < p.next → 0 < loops lane (p.heap k) → Inv p → Inv (process lane reply k p)
  unfolding process
  process-Inv p l runs i =
      receive-Inv (requests lane (p.heap k)) p (room-Sound lane (p.heap k) (i.sound k l))
        (served-Sound lane (p.heap k) (i.sound k l) runs) l i
