-- ===== src/JsonRpc/Isolation.antt =====
-- Agents do not use up each other's limits (services/json-rpc/json_rpc_proxy.go and
-- rate_limiter.go).
use forta_node_tr.Prelude.{
  lookup, insert, erase, lookup-insert, lookup-erase, Dict, ℕ, Text, text_eq, text_eq_iff, List, [],
  ◌∷◌, Bool, true, false, Bool-cases, Option, none, some, select, if◌then◌else◌, ◌≡◌, inl, inr,
  refl, sym, ap, ◌∙◌,
}
use forta_node_tr.Agents.{Library, AgentConfig}
use forta_node_tr.JsonRpc.{
  Limiter, ClientLimiter, is_inactive, reserve, exceeds_limit, auto_cleanup, NetworkedContainer,
  find_agent_from_remote_addr, Answered, forwarded, too_many_requests, JsonRpcProxy,
  publish_metrics, answer_agent, answer, metric_handler,
}

-- What the proxy meets: a request from an address, or a tick of the cleanup.
pub data ProxyEvent : Type 0 where
  requested : Option (List NetworkedContainer) → Text → ℕ → ℕ → ProxyEvent
  cleaned : ℕ → ProxyEvent

unfoldable pub is_from : Text → Option AgentConfig → Bool
is_from id none = false
is_from id (some c) = text_eq c.id id

-- A tick of the cleanup, or a request of the agent, while these are the agents.
pub concerns : Library → Text → List AgentConfig → ProxyEvent → Bool
unfolding is_from
concerns lib id cs (requested containers remote now latency) =
    is_from id (find_agent_from_remote_addr lib containers remote cs)
concerns lib id cs (cleaned now) = true

abbrev pub outcome : Bool → Answered
outcome true = too_many_requests
outcome false = forwarded

pub if_active : {L : Type 0} → ℕ → Option (ClientLimiter L) → Option (ClientLimiter L)
unfolding is_inactive
if_active now none = none
if_active now (some c) = if is_inactive now c then none else some c

-- The answers of a limiter that has one client, to requests and ticks.
pub alone : {L : Type 0} → Limiter L → List ProxyEvent → Option (ClientLimiter L) → List Answered
unfolding reserve if_active
alone lim [] o = []
alone lim (cleaned now ∷ es) o = alone lim es (if_active now o)
alone lim (requested containers remote now latency ∷ es) o =
    let (exceeds, c) = reserve lim now o in outcome exceeds ∷ alone lim es (some c)

module _ {L : Type 0} (lib : Library) (lim : Limiter L) (id : Text) where
  abbrev add_if : Bool → Answered → List Answered → List Answered
  add_if true a as' = a ∷ as'
  add_if false a as' = as'

  -- The answers to the requests of the agent, among all that the proxy meets.
  unfoldable pub answers_to : List ProxyEvent → JsonRpcProxy L → List Answered
  unfolding metric_handler auto_cleanup is_from
  answers_to [] p = []
  answers_to (cleaned now ∷ es) p =
      answers_to es (record p { client_limiters = auto_cleanup now p.client_limiters })
  answers_to (requested containers remote now latency ∷ es) p =
      let (a, p') = metric_handler lim lib containers remote now latency p in
      add_if (is_from id (find_agent_from_remote_addr lib containers remote p.agent_configs)) a
        (answers_to es p')

  if_active-some :
      (now : ℕ) (c : ClientLimiter L) (stale : Bool)
      → is_inactive now c ≡ stale
      → if_active now (some c) ≡ (if stale then none else some c)
  unfolding if_active
  if_active-some now c stale e = ap (λ b. if b then none else some c) e

  cleaned_entry :
      (now : ℕ) (j : Text) (c : ClientLimiter L) (d rest : Dict (ClientLimiter L)) (stale : Bool)
      → is_inactive now c ≡ stale
      → lookup id rest ≡ if_active now (lookup id d)
      → lookup id (if stale then erase j rest else (j, c) ∷ rest)
        ≡ if_active now (if text_eq j id then some c else lookup id d)
  unfolding lookup
  cleaned_entry now j c d rest true e ih =
      lookup-erase j id rest ∙ elim (Bool-cases (text_eq j id)) [
        | inl q ↦ rw q (sym (if_active-some now c true e))
        | inr q ↦ rw q ih
      ]
  cleaned_entry now j c d rest false e ih = elim (Bool-cases (text_eq j id)) [
    | inl q ↦ rw q (sym (if_active-some now c false e))
    | inr q ↦ rw q ih
  ]

  lookup-auto_cleanup :
      (now : ℕ) (d : Dict (ClientLimiter L))
      → lookup id (auto_cleanup now d) ≡ if_active now (lookup id d)
  unfolding auto_cleanup lookup if_active
  lookup-auto_cleanup now [] = refl
  lookup-auto_cleanup now ((j, c) ∷ d) =
      cleaned_entry now j c d (auto_cleanup now d) (is_inactive now c) refl
        (lookup-auto_cleanup now d)

  abbrev Kept : JsonRpcProxy L → Answered × JsonRpcProxy L → Type 0
  Kept p (a, p') =
      (p'.agent_configs ≡ p.agent_configs)
      × (lookup id p'.client_limiters ≡ lookup id p.client_limiters)

  abbrev Reserved : ℕ → JsonRpcProxy L → Answered × JsonRpcProxy L → Type 0
  Reserved now p (a, p') =
      let (exceeds, c) = reserve lim now (lookup id p.client_limiters) in
      (p'.agent_configs ≡ p.agent_configs)
      × (lookup id p'.client_limiters ≡ some c)
      × (a ≡ outcome exceeds)

  answer_agent-eq :
      (agt : AgentConfig) (latency : ℕ) (b : Bool) (p : JsonRpcProxy L)
      → ((answer_agent agt latency b p).1.agent_configs ≡ p.agent_configs)
        × ((answer_agent agt latency b p).1.client_limiters ≡ p.client_limiters)
        × ((answer_agent agt latency b p).0 ≡ outcome b)
  unfolding answer_agent publish_metrics
  answer_agent-eq agt latency true p = (refl, refl, refl)
  answer_agent-eq agt latency false p = (refl, refl, refl)

  answer-Kept :
      (o : Option AgentConfig) (now latency : ℕ) (p : JsonRpcProxy L)
      → is_from id o ≡ false
      → Kept p (answer lim o now latency p)
  unfolding answer is_from exceeds_limit
  answer-Kept none now latency p e = (refl, refl)
  answer-Kept (some agt) now latency p e =
      let (exceeds, c) = reserve lim now (lookup agt.id p.client_limiters) in
      let d = insert agt.id c p.client_limiters in
      let (cs, l, _) = answer_agent-eq agt latency exceeds (record p { client_limiters = d }) in
      (cs, ap (lookup id) l ∙ lookup-insert agt.id id c p.client_limiters ∙ rw e refl)

  answer-Reserved :
      (o : Option AgentConfig) (now latency : ℕ) (p : JsonRpcProxy L)
      → is_from id o ≡ true
      → Reserved now p (answer lim o now latency p)
  unfolding answer is_from exceeds_limit
  answer-Reserved none now latency p e = cc
  answer-Reserved (some agt) now latency p e =
      let d = p.client_limiters in
      let q : agt.id ≡ id = (text_eq_iff agt.id id).0 e in
      let (exceeds, c) = reserve lim now (lookup agt.id d) in
      let (cs, l, a) =
        answer_agent-eq agt latency exceeds (record p { client_limiters = insert agt.id c d }) in
      (
        cs,
        ap (lookup id) l
            ∙ lookup-insert agt.id id c d
            ∙ rw e refl
            ∙ ap (λ i. some (reserve lim now (lookup i d)).1) q,
        a ∙ ap (λ i. outcome (reserve lim now (lookup i d)).0) q,
      )

  -- One request, by whether the agent sent it.
  request_answered :
      (b : Bool) (o : Option AgentConfig) (containers : Option (List NetworkedContainer))
      (remote : Text) (now latency : ℕ) (es : List ProxyEvent) (p : JsonRpcProxy L)
      → is_from id o ≡ b
      → ((p' : JsonRpcProxy L)
          → answers_to es p'
            ≡ alone lim
                (select (concerns lib id p'.agent_configs) es)
                (lookup id p'.client_limiters))
      → add_if b (answer lim o now latency p).0 (answers_to es (answer lim o now latency p).1)
        ≡ alone lim
            (if b
              then requested containers remote now latency
                ∷ select (concerns lib id p.agent_configs) es
              else select (concerns lib id p.agent_configs) es)
            (lookup id p.client_limiters)
  unfolding alone
  request_answered true o containers remote now latency es p e ih =
      let (x, p') = answer lim o now latency p in
      let (cs, l, a) = answer-Reserved o now latency p e in
      ap (λ y. y ∷ answers_to es p') a
      ∙ ap (λ ys. outcome (reserve lim now (lookup id p.client_limiters)).0 ∷ ys)
          (ih p'
            ∙ ap (λ c. alone lim (select (concerns lib id c) es) (lookup id p'.client_limiters)) cs
            ∙ ap (alone lim (select (concerns lib id p.agent_configs) es)) l)
  request_answered false o containers remote now latency es p e ih =
      let (x, p') = answer lim o now latency p in
      let (cs, l) = answer-Kept o now latency p e in
      ih p'
      ∙ ap (λ c. alone lim (select (concerns lib id c) es) (lookup id p'.client_limiters)) cs
      ∙ ap (alone lim (select (concerns lib id p.agent_configs) es)) l

  -- Whatever other agents and unknown senders request in between, and whenever inactive limiters
  -- are deleted, the answers to the requests of an agent are those of a limiter that serves this
  -- agent alone and meets only its requests and the deletions; the agents stay the same meanwhile.
  pub answers_to-alone :
      (es : List ProxyEvent) (p : JsonRpcProxy L)
      → answers_to es p
        ≡ alone lim (select (concerns lib id p.agent_configs) es) (lookup id p.client_limiters)
  unfolding answers_to alone select concerns metric_handler
  answers_to-alone [] p = refl
  answers_to-alone (cleaned now ∷ es) p =
      answers_to-alone es (record p { client_limiters = auto_cleanup now p.client_limiters })
      ∙ ap (alone lim (select (concerns lib id p.agent_configs) es))
          (lookup-auto_cleanup now p.client_limiters)
  answers_to-alone (requested containers remote now latency ∷ es) p =
      let o = find_agent_from_remote_addr lib containers remote p.agent_configs in
      request_answered (is_from id o) o containers remote now latency es p refl
        (answers_to-alone es)
