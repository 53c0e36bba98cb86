-- ===== src/Defender/Client.antt =====
-- BaseApiClient, createApi, createAuthenticatedApi and authenticate of defender-base-client
-- (.github/actions/propose/dist/index.js).
pub mod Steps
pub mod Retry
pub mod Masking
use forta_node_tr.Prelude.{
  ℕ, Text, List, [], ◌∷◌, ◌++◌, Bool, true, false, ◌&&◌, Option, none, some, codes, is_empty,
  text_eq, ◌==◌, if◌then◌else◌, Result, ok, err, Effect, pure, raise, ◌>>=◌, ◌>>◌,
}
use forta_node_tr.Js.{
  Value, Fields, undefined, num, str, obj, end, field, Thrown, error, value, member, thrown_member,
}
use forta_node_tr.Actions.Process.{env_text}
use forta_node_tr.Defender.Remote.{
  Credentials, PoolData, Api, Method, Request, Response, Failure, Answer, accepted, failed, Remote,
  Event, signed_in, sent, World,
}

-- The client's fields, and what a subclass answers for the pool and the address.
pub record Client : Type 0 where
  pub api_key : Text
  pub api_secret : Text
  pub api : Option Api

pub record Settings : Type 0 where
  pub pool_id : Text
  pub pool_client_id : Text
  pub api_url : Text

-- The constructor.
unfoldable pub new_client : Text → Text → Result Thrown Client
new_client api_key api_secret =
    if is_empty api_key
    then err (error (codes "Error") (codes "API key is required"))
    else if is_empty api_secret
    then err (error (codes "Error") (codes "API secret is required"))
    else ok (record { api_key = api_key; api_secret = api_secret; api = none })

unfoldable pub create_api : Text → Text → Text → Api
create_api key token api_url = record {
  base_url = api_url;
  headers =
      (codes "X-Api-Key", key)
      ∷ (codes "Authorization", codes "Bearer " ++ token)
      ∷ (codes "Content-Type", codes "application/json")
      ∷ [];
}

-- `pick(error.response, 'status', 'statusText', 'data')`
picked_response : Option Response → Value
picked_response none = obj end
picked_response (some r) = obj (
    field (codes "status") r.status
      (field (codes "statusText") r.status_text (field (codes "data") r.body end)))

-- `pick(error.request, 'path', 'method')`
picked_request : Option (Value × Value) → Value
picked_request none = obj end
picked_request (some (path, method)) =
    obj (field (codes "path") path (field (codes "method") method end))

-- What the response interceptor rejects with.
unfoldable pub rejection : Failure → Thrown
unfolding picked_response picked_request
rejection f = value (
    obj (
      field (codes "response") (picked_response f.response) (
        field (codes "message") f.message
          (field (codes "request") (picked_request f.request) end))))

-- `v === 401` and `v === 'Unauthorized'`
abbrev is_401 : Value → Bool
is_401 (num n) = n == 401
is_401 v = false

abbrev is_unauthorized : Value → Bool
is_unauthorized (str s) = text_eq s (codes "Unauthorized")
is_unauthorized v = false

-- `error.response.status === 401 && error.response.statusText === 'Unauthorized'`; reading a member
-- of a missing response throws.
unfoldable pub is_expired : Thrown → Result Thrown Bool
is_expired e = elim (thrown_member (codes "response") e) [
  | err e' ↦ err e'
  | ok response ↦ elim (member (codes "status") response) [
    | err e' ↦ err e'
    | ok status ↦ elim (member (codes "statusText") response) [
      | err e' ↦ err e'
      | ok status_text ↦ ok (is_401 status && is_unauthorized status_text)
    ]
  ]
]

module _ {S : Type 0} (remote : Remote S) where
  -- An effect of the client: on its fields and on the world.
  abbrev pub Call : Type 0 → Type 0
  Call A = Effect (Client × World S) Thrown A

  -- `authenticate`: a failure is reported on the console and thrown on.
  unfoldable pub authenticate : Credentials → PoolData → Effect (World S) Thrown Text
  authenticate user_pass pool_data w =
      let (r, outside) = remote.authenticate user_pass pool_data w.outside in
      let w' = record w { outside = outside; log = w.log ++ signed_in user_pass pool_data ∷ [] } in
      elim r [
        | ok token ↦ (ok token, w')
        | err e ↦ (
          err e,
          record w' {
            errors =
                w.errors
                ++ (codes "Failed to get a token for the API key " ++ user_pass.username, e) ∷ [];
          },
        )
      ]

  unfoldable pub create_authenticated_api :
      Credentials → PoolData → Text → Effect (World S) Thrown Api
  unfolding create_api
  create_authenticated_api user_pass pool_data api_url = do
    token ← authenticate user_pass pool_data
    pure (create_api user_pass.username token api_url)

  -- A request through the instance, with the interceptor for its answer.
  unfoldable pub send : Api → Method → Text → Value → Effect (World S) Thrown Value
  send api verb path body w =
      let request : Request = record { api = api; verb = verb; path = path; body = body } in
      let (answer, outside) = remote.send request w.outside in
      let w' = record w { outside = outside; log = w.log ++ sent request ∷ [] } in
      elim answer [ accepted v ↦ (ok v, w') | failed f ↦ (err (rejection f), w') ]

  module _ (settings : World S → Settings) where
    -- `init`, with the value that it leaves in `this.api`.
    unfoldable pub init : Call Api
    init (c, w) =
        let s = settings w in
        let user_pass : Credentials = record { username = c.api_key; password = c.api_secret } in
        let pool_data : PoolData = record {
          user_pool_id = s.pool_id;
          client_id = s.pool_client_id;
        } in
        let (r, w') = create_authenticated_api user_pass pool_data s.api_url w in
        elim r [ ok api ↦ (ok api, (record c { api = some api }, w')) | err e ↦ (err e, (c, w')) ]

    -- `if (!this.api) await this.init()`, with the value of `this.api` behind it.
    unfoldable pub ensure_init : Call Api
    ensure_init (c, w) = elim c.api [ some api ↦ (ok api, (c, w)) | none ↦ init (c, w) ]

    -- `fn(this.api)`
    unfoldable pub run : {A : Type 0} → (Api → Effect (World S) Thrown A) → Api → Call A
    run fn api (c, w) = let (r, w') = fn api w in (r, (c, w'))

    -- The `catch` of `apiCall`.
    unfoldable pub on_error : {A : Type 0} → (Api → Effect (World S) Thrown A) → Thrown → Call A
    on_error fn e s = elim (is_expired e) [
      | err e' ↦ (err e', s)
      | ok expired ↦ if expired then (init >>= run fn) s else (err e, s)
    ]

    unfoldable pub api_call : {A : Type 0} → (Api → Effect (World S) Thrown A) → Call A
    api_call fn s =
        let (ready, s') = ensure_init s in
        elim ready [
          | err e ↦ (err e, s')
          | ok api ↦
              let (r, s'') = run fn api s' in
              elim r [ ok a ↦ (ok a, s'') | err e ↦ on_error fn e s'' ]
        ]
