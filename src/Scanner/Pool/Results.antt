-- ===== src/Scanner/Pool/Results.antt =====
-- Results of agents, which only a round of a goroutine adds to, and how many findings are in them
-- (services/scanner/agentpool/agent_pool.go and poolagent/agent.go).
use forta_node_tr.Prelude.{
  ℕ, zero, suc, ◌≤◌, ltb, Text, text_eq, List, [], ◌∷◌, Bool, true, false, Bool-cases, Option, none,
  some, All, All-append, length, ◌≡◌, inl, inr, refl, sym, ◌∙◌, subst, arith,
}
use forta_node_tr.Agents.{Library, AgentConfig, container_name}
use forta_node_tr.Scanner.Errors.{too_many_errs}
use forta_node_tr.Scanner.Agent.{max_findings, Request, Lane, requests, set_requests, has_room}
use forta_node_tr.Scanner.Pool.{
  AgentResult, Pool, put, publish, close_agent, allocate, discard_agent,
}
use forta_node_tr.Scanner.Pool.Handlers.{
  Update, Running, add_unless, keep_if, drop_if, on_dialed, attach, attach_if, agent_name, in_pool,
  in_payload, add_missing, keep_listed, handle_agent_versions_update, attach_matching, attach_all,
  handle_status_running, drop_stopped, handle_status_stopped,
}
use forta_node_tr.Scanner.Pool.Sending.{
  Choice, discard, send, skip, select_case, is_eligible, act, offer_if, offer,
}
use forta_node_tr.Scanner.Pool.Processing.{
  Reply, findings, failed, take, truncated, emit, on_error, on_reply, invoke, serve, receive,
  process,
}

length-take : {A : Type 0} (n : ℕ) (xs : List A) → length (take n xs) ≤ n
unfolding take
length-take zero xs = omega arith
length-take (suc n) [] = omega arith
length-take (suc n) (x ∷ xs) = omega (arith, length-take n xs)

truncated_short : (fs : List Text) → length (truncated fs) ≤ max_findings
unfolding truncated
truncated_short fs = elim (Bool-cases (ltb max_findings (length fs))) [
  | inl e ↦ rw e (length-take max_findings fs)
  | inr e ↦ rw e (ground (arith, e))
]

-- No result has more findings than the limit.
abbrev pub IsShort : List (Lane × AgentResult) → Type 0
IsShort = All (λ x. length x.1.findings ≤ max_findings)

abbrev pub Short : Pool → Type 0
Short p = IsShort p.results

-- The handlers and the sends leave the results.
add_unless_results :
    (b : Bool) (c : AgentConfig) (u : Update) → (add_unless b c u).pool.results ≡ u.pool.results
unfolding add_unless allocate put
add_unless_results true c u = refl
add_unless_results false c u = refl

keep_if_results : (b : Bool) (k : ℕ) (u : Update) → (keep_if b k u).pool.results ≡ u.pool.results
unfolding keep_if close_agent put
keep_if_results true k u = refl
keep_if_results false k u = refl

drop_if_results : (b : Bool) (k : ℕ) (x : List ℕ × Pool) → (drop_if b k x).1.results ≡ x.1.results
unfolding drop_if close_agent put
drop_if_results true k x = refl
drop_if_results false k x = refl

on_dialed_results :
    (o : Option ℕ) (k : ℕ) (r : Running) → (on_dialed o k r).pool.results ≡ r.pool.results
unfolding on_dialed put
on_dialed_results none k r = refl
on_dialed_results (some c) k r = refl

module _ (lib : Library) where
  add_missing_results :
      (cs : List AgentConfig) (u : Update) → (add_missing lib cs u).pool.results ≡ u.pool.results
  unfolding add_missing
  add_missing_results [] u = refl
  add_missing_results (c ∷ cs) u =
      let b = in_pool lib u.pool.heap u.pool.agents c in
      add_missing_results cs (add_unless b c u) ∙ add_unless_results b c u

  keep_listed_results :
      (latest : List AgentConfig) (ks : List ℕ) (u : Update)
      → (keep_listed lib latest ks u).pool.results ≡ u.pool.results
  unfolding keep_listed
  keep_listed_results latest [] u = refl
  keep_listed_results latest (k ∷ ks) u =
      let b = in_payload lib latest (agent_name lib u.pool.heap k) in
      keep_listed_results latest ks (keep_if b k u) ∙ keep_if_results b k u

  pub updated_results :
      (payload : List AgentConfig) (p : Pool)
      → (handle_agent_versions_update lib payload p).results ≡ p.results
  unfolding handle_agent_versions_update publish
  updated_results payload p =
      let u : Update = record { pool = p; new_agents = []; to_run = []; to_stop = [] } in
      keep_listed_results payload p.agents (add_missing lib payload u)
      ∙ add_missing_results payload u

  attach_if_results :
      (b : Bool) (dial : ℕ → Option ℕ) (k : ℕ) (r : Running)
      → (attach_if b dial k r).pool.results ≡ r.pool.results
  unfolding attach_if attach
  attach_if_results true dial k r =
      on_dialed_results (dial r.dialed) k (record r { dialed = suc r.dialed })
  attach_if_results false dial k r = refl

  attach_matching_results :
      (dial : ℕ → Option ℕ) (c : AgentConfig) (ks : List ℕ) (r : Running)
      → (attach_matching lib dial c ks r).pool.results ≡ r.pool.results
  unfolding attach_matching
  attach_matching_results dial c [] r = refl
  attach_matching_results dial c (k ∷ ks) r =
      let b = text_eq (agent_name lib r.pool.heap k) (container_name lib c) in
      attach_matching_results dial c ks (attach_if b dial k r) ∙ attach_if_results b dial k r

  attach_all_results :
      (dial : ℕ → Option ℕ) (cs : List AgentConfig) (r : Running)
      → (attach_all lib dial cs r).pool.results ≡ r.pool.results
  unfolding attach_all
  attach_all_results dial [] r = refl
  attach_all_results dial (c ∷ cs) r =
      attach_all_results dial cs (attach_matching lib dial c r.pool.agents r)
      ∙ attach_matching_results dial c r.pool.agents r

  pub running_results :
      (dial : ℕ → Option ℕ) (payload : List AgentConfig) (p : Pool)
      → (handle_status_running lib dial payload p).results ≡ p.results
  unfolding handle_status_running publish
  running_results dial payload p =
      attach_all_results dial payload
        (record { pool = p; dialed = 0; agents_ready = []; to_stop = [] })

  drop_stopped_results :
      (payload : List AgentConfig) (ks : List ℕ) (x : List ℕ × Pool)
      → (drop_stopped lib payload ks x).1.results ≡ x.1.results
  unfolding drop_stopped
  drop_stopped_results payload [] x = refl
  drop_stopped_results payload (k ∷ ks) x =
      let b = in_payload lib payload (agent_name lib x.1.heap k) in
      drop_stopped_results payload ks (drop_if b k x) ∙ drop_if_results b k x

  pub stopped_results :
      (payload : List AgentConfig) (p : Pool)
      → (handle_status_stopped lib payload p).results ≡ p.results
  unfolding handle_status_stopped
  stopped_results payload p = drop_stopped_results payload p.agents ([], p)

  act_results :
      (lane : Lane) (req : Request) (c : Choice) (k : ℕ) (p : Pool)
      → (act lib lane req c k p).results ≡ p.results
  unfolding act put discard_agent
  act_results lane req send k p = refl
  act_results lane req skip k p = refl
  act_results lane req discard k p = refl

  offer_if_results :
      (lane : Lane) (req : Request) (b : Bool) (c : Choice) (k : ℕ) (p : Pool)
      → (offer_if lib lane req b c k p).0.results ≡ p.results
  unfolding offer_if
  offer_if_results lane req true c k p = act_results lane req c k p
  offer_if_results lane req false c k p = refl

  pub offer_results :
      (lane : Lane) (req : Request) (coin : Bool) (k : ℕ) (p : Pool)
      → (offer lib lane req coin k p).0.results ≡ p.results
  unfolding offer
  offer_results lane req coin k p =
      let a = p.heap k in
      offer_if_results lane req (is_eligible lib lane req a)
        (select_case coin a.closed (has_room lane a)) k p

on_error_results :
    (lane : Lane) (b : Bool) (k : ℕ) (p : Pool) → (on_error lane b k p).results ≡ p.results
unfolding on_error publish close_agent put
on_error_results lane true k p = refl
on_error_results lane false k p = refl

module _ (lane : Lane) (r : Request) (k : ℕ) (p : Pool) (short : Short p) where
  on_reply-Short : (reply : Reply) → Short (on_reply lane reply r k p)
  unfolding on_reply emit publish put
  on_reply-Short (findings fs) = All-append _ p.results _ short (truncated_short fs, tt)
  on_reply-Short (failed e) =
      let a = p.heap k in
      let (b, ec) = too_many_errs (some e) a.err_counter in
      subst IsShort (sym (on_error_results lane b k (put k (record a { err_counter = ec }) p)))
        short

  invoke-Short : (o : Option ℕ) (reply : Reply) → Short (invoke o lane reply r k p)
  unfolding invoke
  invoke-Short none reply = short
  invoke-Short (some c) reply = on_reply-Short reply

  serve-Short : (b : Bool) (reply : Reply) → Short (serve b lane reply r k p)
  unfolding serve put
  serve-Short true reply = short
  serve-Short false reply = invoke-Short (p.heap k).client reply

receive-Short :
    (rs : List Request) (lane : Lane) (reply : Reply) (k : ℕ) (p : Pool)
    → Short p
    → Short (receive rs lane reply k p)
unfolding receive put
receive-Short [] lane reply k p short = short
receive-Short (r ∷ rs) lane reply k p short =
    serve-Short lane r k (put k (set_requests lane rs (p.heap k)) p) short (p.heap k).closed reply

-- A round of a goroutine adds at most the findings that fit.
pub process-Short :
    (lane : Lane) (reply : Reply) (k : ℕ) (p : Pool) → Short p → Short (process lane reply k p)
unfolding process
process-Short lane reply k p short = receive-Short (requests lane (p.heap k)) lane reply k p short
