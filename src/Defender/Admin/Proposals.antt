-- ===== src/Defender/Admin/Proposals.antt =====
-- createProposal and getProposalUrl of defender-admin-client
-- (.github/actions/propose/dist/index.js): what is posted, and what comes back.
use forta_node_tr.Prelude.{
  Text, List, [], ◌∷◌, none, codes, text_eq, text_eq_iff, if◌then◌else◌, Result, ok, err, ◌≡◌, refl,
  arith,
}
use forta_node_tr.Js.{
  Value, Fields, end, field, str, Thrown, lookup_field, set_field, member, spread,
}
use forta_node_tr.Defender.Remote.{
  Api, Method, Request, Answer, accepted, Remote, Event, sent, World,
}
use forta_node_tr.Defender.Client
use forta_node_tr.Defender.Client.{Client}
use forta_node_tr.Defender.Client.Retry.{
  credentials, Follows, Traffic, api_call-Traffic, api_call-eq-ok,
}
use forta_node_tr.Defender.Admin.{settings, get_proposal_url, post_proposal, create_proposal}

-- The request that carries a proposal.
abbrev pub proposal_request : Value → Api → Request
proposal_request proposal api = record {
  api = api;
  verb = Method.post;
  path = codes "/proposals";
  body = proposal;
}

module _ {S : Type 0} (remote : Remote S) where
  post_proposal-Follows :
      (proposal : Value) (api : Api) (w : World S)
      → Follows w
          (sent (proposal_request proposal api) ∷ [])
          (post_proposal remote proposal api w).1
  unfolding post_proposal Client.send
  post_proposal-Follows proposal api w = ground arith

  -- Creating a proposal with a new client signs in, posts the proposal to `/proposals` if that
  -- succeeded, and at most signs in and posts it once more; the process is left alone.
  pub create_proposal-Traffic :
      (proposal : Value) (c : Client) (w : World S)
      → c.api ≡ none
      → (events : List Event) × Follows w events (create_proposal remote proposal (c, w)).1.1
        × Traffic (credentials c) (proposal_request proposal) events
  unfolding create_proposal
  create_proposal-Traffic proposal c w fresh =
      api_call-Traffic remote settings (post_proposal remote proposal) (proposal_request proposal)
        (post_proposal-Follows proposal) c w fresh

pub lookup_field-set_field :
    (k j : Text) (v : Value) (o : Fields)
    → lookup_field j (set_field k v o) ≡ (if text_eq k j then v else lookup_field j o)
unfolding lookup_field set_field
lookup_field-set_field k j v end = refl
lookup_field-set_field k j v (field i w o) =
    ground
      (arith, text_eq_iff k j, text_eq_iff i k, text_eq_iff i j, lookup_field-set_field k j v o)

module _ {S : Type 0} (remote : Remote S) where
  -- The service accepted a request with the proposal, by a response of which `url` is made.
  pub data AcceptedAs (proposal : Value) (url : Text) : Type 0 where
    accepted_as :
        (api : Api) (w : World S) (response : Value)
        → (remote.send (proposal_request proposal api) w.outside).0 ≡ accepted response
        → get_proposal_url response ≡ ok url
        → AcceptedAs proposal url

  -- The result's `url` is that of an accepted proposal.
  abbrev pub Accepted : Value → Value → Type 0
  Accepted proposal v =
      (url : Text) × (member (codes "url") v ≡ ok (str url)) × AcceptedAs proposal url

  post_proposal-url :
      (proposal : Value) (api : Api) (w : World S) (v response : Value) (r : Result Thrown Text)
      → (remote.send (proposal_request proposal api) w.outside).0 ≡ accepted response
      → get_proposal_url response ≡ r
      → (post_proposal remote proposal api w).0 ≡ ok v
      → Accepted proposal v
  unfolding post_proposal Client.send member
  post_proposal-url proposal api w v response (err t) q u h = ground arith
  post_proposal-url proposal api w v response (ok url) q u h = (
    url,
    ground (
      arith,
      lookup_field-set_field (codes "url") (codes "url") (str url) (spread response),
      text_eq_iff (codes "url") (codes "url"),
    ),
    accepted_as api w response q u,
  )

  post_proposal-answer :
      (proposal : Value) (api : Api) (w : World S) (v : Value) (answer : Answer)
      → (remote.send (proposal_request proposal api) w.outside).0 ≡ answer
      → (post_proposal remote proposal api w).0 ≡ ok v
      → Accepted proposal v
  unfolding post_proposal Client.send member
  post_proposal-answer proposal api w v (Answer.failed f) q h = ground arith
  post_proposal-answer proposal api w v (accepted response) q h =
      post_proposal-url proposal api w v response (get_proposal_url response) q refl h

  -- A proposal that was created was accepted by the service, and the result's `url` is made of the
  -- contract's and the proposal's id in the service's response.
  pub create_proposal-eq-ok :
      (proposal : Value) (c : Client) (w : World S) (v : Value)
      → c.api ≡ none
      → (create_proposal remote proposal (c, w)).0 ≡ ok v
      → Accepted proposal v
  unfolding create_proposal
  create_proposal-eq-ok proposal c w v fresh h =
      let (api, w', q) =
        api_call-eq-ok remote settings (post_proposal remote proposal) c w v fresh h in
      post_proposal-answer proposal api w' v
        (remote.send (proposal_request proposal api) w'.outside).0 refl q
