-- ===== src/Http/Oidc.antt =====
-- OidcClient of the toolkit's oidc-utils.js (.github/actions/propose/dist/index.js): an ID token
-- from the service that the environment names.
pub mod Masking
use forta_node_tr.Prelude.{
  ℕ, Text, Dict, [], ◌∷◌, ◌++◌, Bool, true, false, Option, none, some, codes, is_empty,
  if◌then◌else◌, Result, ok, err, Effect, pure, raise, gets, modify, ◌>>=◌, ◌>>◌,
}
use forta_node_tr.Js.{
  Value, undefined, null, num, str, obj, arr, bool, lookup_field, truthy, template, member,
  thrown_member, Thrown, error, value,
}
use forta_node_tr.Actions.Process.{Process, env_text}
use forta_node_tr.Actions.Core.{debug, set_secret}
use forta_node_tr.Http.Encoding.{encode_uri_component}
use forta_node_tr.Http.Handlers.{bearer}
use forta_node_tr.Http.Options.{HttpClient, RequestOptions, new_http_client}
use forta_node_tr.Http.Url.{ParseUrl}
use forta_node_tr.Http.Client.{HttpResponse, Net}
use forta_node_tr.Http.Request.{Send}
use forta_node_tr.Http.Responses.{JsonResponse, ParseJson, get_json}

-- The value of a variable, or an error that names it.
unfoldable pub required_variable : Text → Process → Result Thrown Text
required_variable name p =
    if is_empty (env_text name p)
    then err (error (codes "Error") (codes "Unable to get " ++ name ++ codes " env variable"))
    else ok (env_text name p)

unfoldable pub get_request_token : Process → Result Thrown Text
get_request_token p = required_variable (codes "ACTIONS_ID_TOKEN_REQUEST_TOKEN") p

unfoldable pub get_id_token_url : Process → Result Thrown Text
get_id_token_url p = required_variable (codes "ACTIONS_ID_TOKEN_REQUEST_URL") p

unfoldable pub retrying : RequestOptions
retrying = record {
  headers = none;
  ignore_ssl_error = none;
  socket_timeout = none;
  allow_redirects = none;
  allow_redirect_downgrade = none;
  max_redirects = none;
  max_sockets = none;
  keep_alive = none;
  allow_retries = some true;
  max_retries = some 10;
  deserialize_dates = false;
}

unfoldable pub create_http_client : Process → Result Thrown HttpClient
create_http_client p = elim (get_request_token p) [
  | err e ↦ err e
  | ok token ↦
      ok (new_http_client (some (codes "actions/oidc-client")) (bearer token ∷ []) (some retrying))
]

-- `${error.statusCode}` and `${error.result.message}`; reading a member of what is missing throws
-- in their place.
pub token_failure : Thrown → Thrown
token_failure e = elim (thrown_member (codes "statusCode") e) [
  | err f ↦ f
  | ok status ↦ elim (thrown_member (codes "result") e) [
    | err f ↦ f
    | ok result ↦ elim (member (codes "message") result) [
      | err f ↦ f
      | ok message ↦ error (codes "Error") (
          codes "Failed to get ID Token. \n \n        Error Code : "
          ++ template status
          ++ codes "\n \n        Error Message: "
          ++ template message)
    ]
  ]
]

-- `res.result?.value`
unfoldable pub token_of : Value → Value
token_of (obj o) = lookup_field (codes "value") o
token_of v = undefined

unfoldable pub received : Result Thrown JsonResponse → Result Thrown Value
received (err e) = err (token_failure e)
received (ok r) =
    let token = token_of r.result in
    if truthy token
    then ok token
    else err (error (codes "Error") (codes "Response json body do not have ID Token field"))

-- `Error message: ${error.message}`
unfoldable pub reported : Result Thrown Value → Result Thrown Value
reported (ok token) = ok token
reported (err e) = elim (thrown_member (codes "message") e) [
  | err f ↦ err f
  | ok message ↦ err (error (codes "Error") (codes "Error message: " ++ template message))
]

unfoldable pub token_url : Text → Text → Text
token_url audience url =
    if is_empty audience then url else url ++ codes "&audience=" ++ encode_uri_component audience

module _ {S : Type 0} (parse_url : ParseUrl) (send : Send S) (parse_json : ParseJson) where
  unfoldable pub receive : Result Thrown JsonResponse × Net S → Result Thrown Value × Net S
  receive (r, n) = (received r, n)

  unfoldable pub get_call : Text → Effect (Net S) Thrown Value
  unfolding receive
  get_call url n = elim (create_http_client n.process) [
    | err e ↦ (err e, n)
    | ok c ↦ receive (get_json parse_url send parse_json url [] (record n { client = c }))
  ]

  -- `setSecret` of a token that was received.
  unfoldable pub mask : Result Thrown Value × Net S → Result Thrown Value × Net S
  mask (err e, n) = (err e, n)
  mask (ok token, n) = (ok token, record n { process = set_secret token n.process })

  unfoldable pub log_url : Text → Net S → Net S
  log_url url n = record n { process = debug (str (codes "ID token url is " ++ url)) n.process }

  unfoldable pub report : Result Thrown Value × Net S → Result Thrown Value × Net S
  report (r, n) = (reported r, n)

  unfoldable pub get_id_token : Text → Effect (Net S) Thrown Value
  unfolding report
  get_id_token audience n = report (elim (get_id_token_url n.process) [
    | err e ↦ (err e, n)
    | ok url ↦ let full = token_url audience url in mask (get_call full (log_url full n))
  ])
