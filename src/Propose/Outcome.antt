-- ===== src/Propose/Outcome.antt =====
-- How a run of the release action ends (.github/actions/propose/index.js): what it sends, what it
-- prints, and its exit code.
use forta_node_tr.Prelude.{
  Text, List, [], ◌∷◌, ◌++◌, append-nil, none, codes, is_empty, is_empty_iff, is_empty-eq-false,
  trim, Bool-cases, Result, ok, err, >>=-ok, ◌≡◌, ◌≢◌, ◌⊎◌, refl, sym, ap, ◌∙◌, inl, inr, arith,
}
use forta_node_tr.Js.{Value, undefined, str, Thrown, error, member, thrown_member, template}
use forta_node_tr.Actions.Process.{Process, write, env_text}
use forta_node_tr.Actions.Core.{input_variable, get_input, set_output, set_failed, plain}
use forta_node_tr.Defender.Remote.{Credentials, Remote, Event, World}
use forta_node_tr.Defender.Client.{Client, new_client}
use forta_node_tr.Defender.Client.Retry.{Follows, Traffic}
use forta_node_tr.Defender.Admin
use forta_node_tr.Defender.Admin.Proposals.{
  proposal_request, create_proposal-Traffic, create_proposal-eq-ok, AcceptedAs,
}
use forta_node_tr.Propose.{
  Inputs, proposal, read_inputs, propose_upgrade, announce, on_failure, main, update_process,
  url_of, settle, run, log_end,
}

-- An input: the text of its variable, without the white space around it.
input_text : Text → Process → Text
input_text name p = trim (env_text (input_variable name) p)

pub inputs_of : Process → Inputs
unfolding input_text
inputs_of p = record {
  api_key = input_text (codes "api-key") p;
  api_secret = input_text (codes "api-secret") p;
  version_contract = input_text (codes "scanner-version-contract") p;
  network = input_text (codes "network") p;
  multisig = input_text (codes "multisig") p;
  version = input_text (codes "version") p;
  cid = input_text (codes "release-cid") p;
}

read_inputs-eq : {S : Type 0} (w : World S) → read_inputs w ≡ (ok (inputs_of w.process), w)
unfolding read_inputs get_input inputs_of
read_inputs-eq w = refl

empty_or_not : (s : Text) → (s ≡ []) ⊎ (s ≢ [])
empty_or_not [] = inl refl
empty_or_not (x ∷ s) = inr (cc)

abbrev pub key_of : Inputs → Credentials
key_of i = record { username = i.api_key; password = i.api_secret }

module _ {S : Type 0} (remote : Remote S) where
  main-eq :
      (w : World S) → main remote w ≡ settle remote (propose_upgrade remote (inputs_of w.process) w)
  unfolding main
  main-eq w =
      ap (settle remote)
        (>>=-ok read_inputs (propose_upgrade remote) w w (inputs_of w.process) (read_inputs-eq w))

  -- Without a key or a secret nothing is sent.
  propose_upgrade-refused :
      (i : Inputs) (w : World S)
      → (i.api_key ≡ []) ⊎ (i.api_secret ≡ [])
      → (message : Text) × (propose_upgrade remote i w ≡ (err (error (codes "Error") message), w))
  unfolding propose_upgrade new_client
  propose_upgrade-refused i w h = elim (Bool-cases (is_empty i.api_key)) [
    | inl no_key ↦ (codes "API key is required", ground arith)
    | inr key ↦ (
      codes "API secret is required",
      ground (arith, is_empty_iff i.api_key, is_empty_iff i.api_secret),
    )
  ]

  url_of-Follows :
      (w : World S) (events : List Event) (x : Result Thrown Value × (Client × World S))
      → Follows w events x.1.1
      → Follows w events (url_of remote x).1
  url_of-Follows w events (ok v, (c, w')) h = h
  url_of-Follows w events (err e, (c, w')) h = h

  url_of-eq-ok :
      (v : Value) (x : Result Thrown Value × (Client × World S))
      → (url_of remote x).0 ≡ ok v
      → (r : Value) × (x.0 ≡ ok r) × (member (codes "url") r ≡ ok v)
  url_of-eq-ok v (ok r, (c, w')) h = (r, refl, h)
  url_of-eq-ok v (err e, (c, w')) h = cc

  new_client_of : Inputs → Client
  new_client_of i = record { api_key = i.api_key; api_secret = i.api_secret; api = none }

  module _ (i : Inputs) (w : World S) (key : i.api_key ≢ []) (secret : i.api_secret ≢ []) where
    new_client-eq : new_client i.api_key i.api_secret ≡ ok (new_client_of i)
    unfolding new_client new_client_of
    new_client-eq = rw (is_empty-eq-false i.api_key key, is_empty-eq-false i.api_secret secret)

    propose_upgrade-eq :
        propose_upgrade remote i w
        ≡ url_of remote (Admin.create_proposal remote (proposal i) (new_client_of i, w))
    unfolding propose_upgrade
    propose_upgrade-eq = rw (new_client-eq, propose_upgrade)

    propose_upgrade-Traffic :
        (events : List Event) × Follows w events (propose_upgrade remote i w).1
        × Traffic (key_of i) (proposal_request (proposal i)) events
    propose_upgrade-Traffic =
        let (events, follows, traffic) =
          create_proposal-Traffic remote (proposal i) (new_client_of i) w
            (unfold new_client_of in refl) in
        (
          events,
          rw propose_upgrade-eq (
              url_of-Follows w events
                (Admin.create_proposal remote (proposal i) (new_client_of i, w)) follows),
          unfold new_client_of in traffic,
        )

    propose_upgrade-eq-ok :
        (v : Value)
        → (propose_upgrade remote i w).0 ≡ ok v
        → (url : Text) × (v ≡ str url) × AcceptedAs remote (proposal i) url
    propose_upgrade-eq-ok v h =
        let (r, made, read) =
          url_of-eq-ok v (Admin.create_proposal remote (proposal i) (new_client_of i, w))
            (rw propose_upgrade-eq at h) in
        let (url, reads, accepted) =
          create_proposal-eq-ok remote (proposal i) (new_client_of i) w r
            (unfold new_client_of in refl) made in
        (url, cc (read, reads), accepted)

  -- What a run may send: nothing without a key or a secret; otherwise what one new client's call
  -- with the proposal sends.
  abbrev pub Allowed : Inputs → List Event → Type 0
  Allowed i events =
      (((i.api_key ≡ []) ⊎ (i.api_secret ≡ [])) × (events ≡ []))
      ⊎ ((i.api_key ≢ [])
          × (i.api_secret ≢ [])
          × Traffic (key_of i) (proposal_request (proposal i)) events)

  propose_upgrade-silent :
      (i : Inputs) (w : World S)
      → (i.api_key ≡ []) ⊎ (i.api_secret ≡ [])
      → (events : List Event) × Follows w events (propose_upgrade remote i w).1 × Allowed i events
  propose_upgrade-silent i w h =
      let (message, q) = propose_upgrade-refused i w h in
      ([], rw q (sym (append-nil w.log), refl), inl (h, refl))

  propose_upgrade-Allowed :
      (i : Inputs) (w : World S)
      → (events : List Event) × Follows w events (propose_upgrade remote i w).1 × Allowed i events
  propose_upgrade-Allowed i w = elim (empty_or_not i.api_key) [
    | inl no_key ↦ propose_upgrade-silent i w (inl no_key)
    | inr key ↦ elim (empty_or_not i.api_secret) [
      | inl no_secret ↦ propose_upgrade-silent i w (inr no_secret)
      | inr secret ↦
          let (events, follows, traffic) = propose_upgrade-Traffic i w key secret in
          (events, follows, inr (key, secret, traffic))
    ]
  ]

  abbrev pub Announced : World S → Result Thrown Value × World S → Type 0
  Announced w (r, w') =
      (url : Text) × AcceptedAs remote (proposal (inputs_of w.process)) url
      × (r ≡ ok undefined)
      × (w'.process
          ≡ set_output (codes "proposal-url") (str url)
              (write ((codes "proposal created: " ++ url) ++ codes "\n") w.process))

  abbrev pub Failed : World S → Result Thrown Value × World S → Type 0
  Failed w (r, w') =
      (e : Thrown) × (message : Value) × ((propose_upgrade remote (inputs_of w.process) w).0
        ≡ err e)
      × (thrown_member (codes "message") e ≡ ok message)
      × (r ≡ ok undefined)
      × (w'.process ≡ set_failed (plain message) w.process)

  abbrev pub Rejected : World S → Result Thrown Value × World S → Type 0
  Rejected w (r, w') =
      (e : Thrown) × (t : Thrown) × ((propose_upgrade remote (inputs_of w.process) w).0 ≡ err e)
      × (thrown_member (codes "message") e ≡ err t)
      × (r ≡ err t)
      × (w'.process ≡ w.process)

  proposed-url :
      (i : Inputs) (w : World S) (v : Value)
      → (propose_upgrade remote i w).0 ≡ ok v
      → (url : Text) × (v ≡ str url) × AcceptedAs remote (proposal i) url
  proposed-url i w v h = elim (empty_or_not i.api_key) [
    | inl no_key ↦ cc (ap (λ x. x.0) (propose_upgrade-refused i w (inl no_key)).1, h)
    | inr key ↦ elim (empty_or_not i.api_secret) [
      | inl no_secret ↦ cc (ap (λ x. x.0) (propose_upgrade-refused i w (inr no_secret)).1, h)
      | inr secret ↦ propose_upgrade-eq-ok i w key secret v h
    ]
  ]

  announce-process :
      (v : Value) (url : Text) (w w' : World S)
      → v ≡ str url
      → w'.process ≡ w.process
      → (announce remote v w').process
        ≡ set_output
            (codes "proposal-url")
            (str url)
            (write ((codes "proposal created: " ++ url) ++ codes "\n") w.process)
  unfolding announce template
  announce-process v url w w' q same = rw (q, same)

  failure-cases :
      (w : World S) (e : Thrown) (w' : World S)
      → (propose_upgrade remote (inputs_of w.process) w).0 ≡ err e
      → w'.process ≡ w.process
      → (m : Result Thrown Value) → thrown_member (codes "message") e ≡ m
      → Failed w (on_failure remote e w') ⊎ Rejected w (on_failure remote e w')
  unfolding on_failure
  failure-cases w e w' q same (ok message) r = inl (e, message, q, r, ground arith, ground arith)
  failure-cases w e w' q same (err t) r = inr (e, t, q, r, ground arith, ground arith)

  main_settled :
      (w : World S) (x : Result Thrown Value × World S)
      → propose_upgrade remote (inputs_of w.process) w ≡ x
      → x.1.process ≡ w.process
      → Announced w (settle remote x) ⊎ (Failed w (settle remote x) ⊎ Rejected w (settle remote x))
  main_settled w (ok v, w') e same =
      let (url, q, accepted) = proposed-url (inputs_of w.process) w v (ap (λ x. x.0) e) in
      inl (url, accepted, refl, announce-process v url w w' q same)
  main_settled w (err t, w') e same =
      inr (failure-cases w t w' (ap (λ x. x.0) e) same (thrown_member (codes "message") t) refl)

  -- A run of `main` ends in one of three ways. The service accepted the proposal of the inputs:
  -- its address is printed and set as the output, and the exit code stays. Or something was thrown
  -- whose message could be read: the exit code is 1, the message is logged as an error, and no
  -- output is set. Or what was thrown has no members: `main` rejects and the process is unchanged.
  pub main_outcome :
      (w : World S)
      → Announced w (main remote w) ⊎ (Failed w (main remote w) ⊎ Rejected w (main remote w))
  main_outcome w =
      let x = propose_upgrade remote (inputs_of w.process) w in
      let (events, follows, allowed) = propose_upgrade-Allowed (inputs_of w.process) w in
      rw (main-eq w) (main_settled w x refl follows.1)

  main_returns : (w : World S) (v : Value) → (main remote w).0 ≡ ok v → v ≡ undefined
  main_returns w v h = elim (main_outcome w) [
    | inl (url, accepted, r, p) ↦ cc (r, h)
    | inr (inl (e, message, q, m, r, p)) ↦ cc (r, h)
    | inr (inr (e, t, q, m, r, p)) ↦ cc (r, h)
  ]

  log_end-undefined :
      (inspect : Thrown → Text) (x : Result Thrown Value × World S)
      → x.0 ≡ ok undefined
      → log_end remote inspect x ≡ update_process (write (codes "undefined\n")) x.1
  unfolding template
  log_end-undefined inspect (ok u, w) h = let q : u ≡ undefined = cc in rw q
  log_end-undefined inspect (err e, w) h = cc

  -- Whenever `main` resolves, also after a proposal was created, the call at the end of the file
  -- prints `undefined` and nothing more: `main` does not return the address that it logs.
  run_prints_undefined :
      (inspect : Thrown → Text) (w : World S) (v : Value)
      → (main remote w).0 ≡ ok v
      → run remote inspect w ≡ update_process (write (codes "undefined\n")) (main remote w).1
  unfolding run
  run_prints_undefined inspect w v h =
      log_end-undefined inspect (main remote w) (h ∙ ap ok (main_returns w v h))
