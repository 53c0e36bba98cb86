-- ===== src/Scanner/Pool/Loops.antt =====
-- What the loops of the pool's handlers leave: the heap at each address, the agents that are kept,
-- and the lists that are published (services/scanner/agentpool/agent_pool.go).
use forta_node_tr.Prelude.{
  ℕ, ==_iff, List, [], ◌∷◌, ◌++◌, append-nil, append_assoc, Bool, true, false, not, ◌&&◌, member,
  select, select-pass, select-fail, if◌then◌else◌, ◌≡◌, refl, sym, ap, ◌∙◌, subst, arith,
}
use mathlib.Core.List.{map}
use forta_node_tr.Agents.{AgentConfig, Library, container_name}
use forta_node_tr.Scanner.Agent.{Agent, close}
use forta_node_tr.Scanner.Pool.{Pool, write, put, close_agent}
use forta_node_tr.Scanner.Pool.Handlers.{
  Update, in_payload, keep_listed, drop_stopped, keep_if, drop_if,
}

close-config : (a : Agent) → (close a).0.config ≡ a.config
unfolding close
close-config a = ground arith

close-close : (a : Agent) → (close (close a).0).0 ≡ (close a).0
unfolding close
close-close a = ground arith

pub close-closed : (a : Agent) → (close a).0.closed ≡ true
unfolding close
close-closed a = ground arith

write-config : (j : ℕ) (h : ℕ → Agent) (k : ℕ) → (write j (close (h j)).0 h k).config ≡ (h k).config
unfolding write
write-config j h k = ground (arith, close-config (h j), ==_iff j k)

-- The agents of a list that pass a test are closed.
unfoldable pub close_where : (ℕ → Bool) → List ℕ → (ℕ → Agent) → ℕ → Agent
close_where f ks h k = if member k ks && f k then (close (h k)).0 else h k

close_where-write :
    (f : ℕ → Bool) (j : ℕ) (ks : List ℕ) (h : ℕ → Agent) (k : ℕ)
    → f j ≡ true
    → close_where f ks (write j (close (h j)).0 h) k ≡ close_where f (j ∷ ks) h k
unfolding close_where write member
close_where-write f j ks h k e = ground (arith, close-close (h k), ==_iff j k)

close_where-skip :
    (f : ℕ → Bool) (j : ℕ) (ks : List ℕ) (h : ℕ → Agent) (k : ℕ)
    → f j ≡ false
    → close_where f ks h k ≡ close_where f (j ∷ ks) h k
unfolding close_where member
close_where-skip f j ks h k e = ground (arith, ==_iff j k)

pub close_where-agree :
    (f g : ℕ → Bool) (ks : List ℕ) (h h' : ℕ → Agent) (k : ℕ)
    → f k ≡ g k
    → h k ≡ h' k
    → close_where f ks h k ≡ close_where g ks h' k
unfolding close_where
close_where-agree f g ks h h' k e e' =
    ap (λ b. if member k ks && b then (close (h k)).0 else h k) e
    ∙ ap (λ a. if member k ks && g k then (close a).0 else a) e'

pub close_where-absent :
    (f : ℕ → Bool) (ks : List ℕ) (h : ℕ → Agent) (k : ℕ)
    → member k ks ≡ false
    → close_where f ks h k ≡ h k
unfolding close_where
close_where-absent f ks h k e = rw e refl

-- The loops read the names of agents from configurations, which they do not change.
module _ (lib : Library) (payload : List AgentConfig) (cfg_of : ℕ → AgentConfig) where
  abbrev pub is_listed : ℕ → Bool
  is_listed k = in_payload lib payload (container_name lib (cfg_of k))

  abbrev pub is_unlisted : ℕ → Bool
  is_unlisted k = not (is_listed k)

  abbrev pub Configs : (ℕ → Agent) → Type 0
  Configs h = (k : ℕ) → (h k).config ≡ cfg_of k

  abbrev pub SameRest : Pool → Pool → Type 0
  SameRest p q = (q.next ≡ p.next) × (q.published ≡ p.published) × (q.panicked ≡ p.panicked)

  Configs-write : (j : ℕ) (h : ℕ → Agent) → Configs h → Configs (write j (close (h j)).0 h)
  Configs-write j h c k = write-config j h k ∙ c k

  -- From `u` to `v` the loop over `ks` was run.
  abbrev pub Kept : List ℕ → Update → Update → Type 0
  Kept ks u v =
      ((k : ℕ) → v.pool.heap k ≡ close_where is_unlisted ks u.pool.heap k)
      × (v.new_agents ≡ u.new_agents ++ select is_listed ks)
      × (v.to_run ≡ u.to_run)
      × (v.to_stop ≡ u.to_stop ++ map cfg_of (select is_unlisted ks))
      × SameRest u.pool v.pool

  Kept-round :
      (j : ℕ) (ks : List ℕ) (u v : Update) (b : Bool)
      → (u.pool.heap j).config ≡ cfg_of j
      → is_listed j ≡ b
      → Kept ks (keep_if b j u) v
      → Kept (j ∷ ks) u v
  unfolding keep_if close_agent put
  Kept-round j ks u v true c e (heap, kept, run, stop, rest) = (
    λ k. heap k ∙ close_where-skip is_unlisted j ks u.pool.heap k (ap not e),
    kept
        ∙ append_assoc u.new_agents (j ∷ []) (select is_listed ks)
        ∙ ap (λ l. u.new_agents ++ l) (sym (select-pass is_listed j ks e)),
    run,
    stop ∙ ap (λ l. u.to_stop ++ map cfg_of l) (sym (select-fail is_unlisted j ks (ap not e))),
    rest,
  )
  Kept-round j ks u v false c e (heap, kept, run, stop, rest) = (
    λ k. heap k ∙ close_where-write is_unlisted j ks u.pool.heap k (ap not e),
    kept ∙ ap (λ l. u.new_agents ++ l) (sym (select-fail is_listed j ks e)),
    run,
    stop
        ∙ ap (λ x. (u.to_stop ++ (x ∷ [])) ++ map cfg_of (select is_unlisted ks)) c
        ∙ append_assoc u.to_stop (cfg_of j ∷ []) (map cfg_of (select is_unlisted ks))
        ∙ ap (λ l. u.to_stop ++ map cfg_of l) (sym (select-pass is_unlisted j ks (ap not e))),
    rest,
  )

  Configs-keep_if :
      (b : Bool) (j : ℕ) (u : Update) → Configs u.pool.heap → Configs (keep_if b j u).pool.heap
  unfolding keep_if close_agent put
  Configs-keep_if true j u c = c
  Configs-keep_if false j u c = Configs-write j u.pool.heap c

  pub keep_listed-Kept :
      (ks : List ℕ) (u : Update) → Configs u.pool.heap → Kept ks u (keep_listed lib payload ks u)
  unfolding keep_listed close_where member select
  keep_listed-Kept [] u c = (
    λ k. refl,
    sym (append-nil u.new_agents),
    refl,
    sym (append-nil u.to_stop),
    (refl, refl, refl),
  )
  keep_listed-Kept (j ∷ ks) u c =
      subst
        (λ cfg. Kept (j ∷ ks) u (
          keep_listed lib payload ks
            (keep_if (in_payload lib payload (container_name lib cfg)) j u)))
        (sym (c j))
        (Kept-round j ks u (keep_listed lib payload ks (keep_if (is_listed j) j u)) (is_listed j)
          (c j) refl
          (keep_listed-Kept ks (keep_if (is_listed j) j u) (Configs-keep_if (is_listed j) j u c)))

  -- The same for the loop of handleStatusStopped, which closes the agents that are listed.
  abbrev pub Dropped : List ℕ → List ℕ × Pool → List ℕ × Pool → Type 0
  Dropped ks x y =
      ((k : ℕ) → y.1.heap k ≡ close_where is_listed ks x.1.heap k)
      × (y.0 ≡ x.0 ++ select is_unlisted ks)
      × SameRest x.1 y.1

  Dropped-round :
      (j : ℕ) (ks : List ℕ) (x y : List ℕ × Pool) (b : Bool)
      → is_listed j ≡ b
      → Dropped ks (drop_if b j x) y
      → Dropped (j ∷ ks) x y
  unfolding drop_if close_agent put
  Dropped-round j ks x y true e (heap, kept, rest) = (
    λ k. heap k ∙ close_where-write is_listed j ks x.1.heap k e,
    kept ∙ ap (λ l. x.0 ++ l) (sym (select-fail is_unlisted j ks (ap not e))),
    rest,
  )
  Dropped-round j ks x y false e (heap, kept, rest) = (
    λ k. heap k ∙ close_where-skip is_listed j ks x.1.heap k e,
    kept
        ∙ append_assoc x.0 (j ∷ []) (select is_unlisted ks)
        ∙ ap (λ l. x.0 ++ l) (sym (select-pass is_unlisted j ks (ap not e))),
    rest,
  )

  Configs-drop_if :
      (b : Bool) (j : ℕ) (x : List ℕ × Pool) → Configs x.1.heap → Configs (drop_if b j x).1.heap
  unfolding drop_if close_agent put
  Configs-drop_if true j x c = Configs-write j x.1.heap c
  Configs-drop_if false j x c = c

  pub drop_stopped-Dropped :
      (ks : List ℕ) (x : List ℕ × Pool)
      → Configs x.1.heap
      → Dropped ks x (drop_stopped lib payload ks x)
  unfolding drop_stopped close_where member select
  drop_stopped-Dropped [] x c = (λ k. refl, sym (append-nil x.0), (refl, refl, refl))
  drop_stopped-Dropped (j ∷ ks) x c =
      subst
        (λ cfg. Dropped (j ∷ ks) x (
          drop_stopped lib payload ks
            (drop_if (in_payload lib payload (container_name lib cfg)) j x)))
        (sym (c j))
        (Dropped-round j ks x (drop_stopped lib payload ks (drop_if (is_listed j) j x))
          (is_listed j) refl
          (drop_stopped-Dropped ks (drop_if (is_listed j) j x)
            (Configs-drop_if (is_listed j) j x c)))
