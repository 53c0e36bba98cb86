-- ===== src/Http/Tests.antt =====
-- Requests against two servers, of which the first redirects to the second and the second is
-- unavailable once, and the theorems about the client at these inputs.
use forta_node_tr.Prelude.{
  ℕ, zero, suc, ◌+◌, ◌*◌, ◌≤◌, Text, Dict, List, [], ◌∷◌, ◌++◌, true, false, Option, none, some,
  codes, text_eq, if◌then◌else◌, Result, ok, ◌≡◌, ◌≢◌, ◌↔◌, refl, All, length, lookup, to_lower,
  insert, is_space, split, to_upper, trim,
}
use forta_node_tr.Js.{Thrown, print_nat, Value, obj, str, field, end, truthy, lookup_field}
use forta_node_tr.Actions.Process.{Process, env_text}
use forta_node_tr.Http.Url.{Url, ParseUrl}
use forta_node_tr.Http.Handlers.{
  Handler, bearer, can_handle_authentication, credential, prepare_headers,
}
use forta_node_tr.Http.Proxy.{
  get_proxy_url, check_bypass, proxy_variable, any_host, has_host, request_port, upper_hosts,
}
use forta_node_tr.Http.Options.{RequestOptions, new_http_client}
use forta_node_tr.Http.Client.{
  Info, HttpResponse, Net, get_existing_or_default_header, prepare_request, prepared, get_agent,
  kept_agent, assign, handle_headers, lowercase_keys, make_agent, merge_headers, request_headers,
  used_proxy,
}
use forta_node_tr.Http.Request.{
  Send, dispose, request, request_at, tries, try_once, allowed_target, answer_of, downgrade_error,
  find_handler, follow, handle_authentication, is_downgrade, is_redirect_code, is_retry_code,
  is_retryable_verb, last_response, redirect_headers, redirect_location, redirect_step,
  redirect_target, redirects, request_raw, respond, strip_authorization, turn_of, wait, with_length,
  extra_tries, backoff_delay,
}
use forta_node_tr.Http.Request.Turns.{Post}
use forta_node_tr.Http.Request.Loop.{Returned, backoffs}
use forta_node_tr.Http.Request.Limits.{request_limits}
use forta_node_tr.Http.Request.Security.{request_tls, request_credentials, Guarded}
use forta_node_tr.Http.Proxy.Bypass.{check_bypass_iff, no_proxy, Matched}
use forta_node_tr.Http.Responses.{
  ParseJson, deserializes_dates, read_json, read_body, process_response, process_answer,
  with_default, resolve, get_json,
}
use forta_node_tr.Http.Oidc.{
  required_variable, get_request_token, get_id_token_url, retrying, create_http_client, token_of,
  received, reported, token_url, receive, get_call, mask, log_url, report, get_id_token,
}
use forta_node_tr.Http.Oidc.Masking.{get_id_token-masked}
use forta_node_tr.Actions.Core.{set_secret, debug}
use forta_node_tr.Actions.Command.{issue_command}

abbrev https_url : Text → Text → Url
https_url host href = record {
  protocol = codes "https:";
  hostname = host;
  port = [];
  pathname = codes "/";
  search = [];
  username = [];
  password = [];
  href = href;
}

abbrev url_a : Url
url_a = https_url (codes "a.io") (codes "https://a.io/")

abbrev url_b : Url
url_b = https_url (codes "b.io") (codes "https://b.io/")

abbrev site : ParseUrl
site t =
    if text_eq t (codes "https://a.io/")
    then some url_a
    else if text_eq t (codes "https://b.io/")
    then some url_b
    else none

abbrev reply : ℕ → HttpResponse
reply zero = record {
  status = 302;
  headers = (codes "location", codes "https://b.io/") ∷ [];
  body = [];
}
reply (suc zero) = record { status = 503; headers = []; body = [] }
reply (suc (suc n)) = record { status = 200; headers = []; body = codes "{}" }

-- The state counts the requests.
abbrev network : Send ℕ
network info body n = (ok (reply n), suc n)

abbrev options : RequestOptions
options = record {
  headers = none;
  ignore_ssl_error = none;
  socket_timeout = none;
  allow_redirects = none;
  allow_redirect_downgrade = none;
  max_redirects = some 3;
  max_sockets = none;
  keep_alive = none;
  allow_retries = some true;
  max_retries = some 2;
  deserialize_dates = false;
}

abbrev process : Process
process = record {
  env = [];
  stdout = [];
  exit_code = none;
  files = [];
  eol = 10 ∷ [];
  path_delimiter = codes ":";
}

abbrev start : List Handler → Net ℕ
start handlers = record {
  client = new_http_client (some (codes "actions")) handlers (some options);
  https_global_verifies = true;
  process = process;
  outside = 0;
  sent = [];
  delays = [];
}

abbrev given : Dict Text
given = (codes "Authorization", codes "secret") ∷ []

abbrev outcome : List Handler → Result Thrown (Option HttpResponse) × Net ℕ
outcome handlers =
    request site network (codes "GET") (codes "https://a.io/") none given (start handlers)

request_limits_example :
    (j : ℕ) × (j ≤ extra_tries (start []).client (codes "GET"))
    × (length (outcome []).1.sent
        ≤ 0
          + suc (extra_tries (start []).client (codes "GET"))
            * (1 + (start []).client.max_redirects))
    × ((outcome []).1.delays ≡ [] ++ backoffs 1 j)
    × Post (Returned j (extra_tries (start []).client (codes "GET"))) (outcome []).0
request_limits_example =
    request_limits site network (codes "GET") (codes "https://a.io/") none given (start [])

request_tls_example :
    (new : List Info) × ((outcome []).1.sent ≡ [] ++ new) × All (λ info. info.using_ssl ≡ true) new
unfolding new_http_client text_eq
request_tls_example =
    request_tls site network (codes "GET") (codes "https://a.io/") none given (start []) url_a refl
      refl refl

request_credentials_example :
    (new : List Info) × ((outcome []).1.sent ≡ [] ++ new) × All (Guarded url_a) new
unfolding new_http_client text_eq
request_credentials_example =
    request_credentials site network (codes "GET") (codes "https://a.io/") none given (start [])
      url_a refl (refl, refl)

-- Three requests, one wait; the second and the third go to the other server.
outcome_run : (outcome []).1.delays ≡ 10 ∷ []
unfolding request request_at tries try_once allowed_target answer_of downgrade_error find_handler
    follow handle_authentication is_downgrade is_redirect_code is_retry_code is_retryable_verb
    last_response redirect_headers redirect_location redirect_step redirect_target redirects
    request_raw respond strip_authorization turn_of wait with_length extra_tries backoff_delay
    prepare_request prepared get_agent kept_agent assign handle_headers lowercase_keys make_agent
    merge_headers request_headers used_proxy can_handle_authentication credential prepare_headers
    get_proxy_url check_bypass proxy_variable any_host has_host request_port upper_hosts lookup
    text_eq insert is_space split to_upper to_lower trim env_text print_nat new_http_client
outcome_run = refl

-- A bearer token reaches the other server.
credential_sent : List Info → Option Text
credential_sent [] = none
credential_sent (a ∷ []) = none
credential_sent (a ∷ b ∷ l) =
    if text_eq b.host (codes "b.io") then lookup (codes "Authorization") b.headers else none

bearer_sent : credential_sent (outcome (bearer (codes "t") ∷ [])).1.sent ≡ some (codes "Bearer t")
unfolding credential_sent request request_at tries try_once allowed_target answer_of downgrade_error
    find_handler follow handle_authentication is_downgrade is_redirect_code is_retry_code
    is_retryable_verb last_response redirect_headers redirect_location redirect_step redirect_target
    redirects request_raw respond strip_authorization turn_of wait with_length extra_tries
    backoff_delay prepare_request prepared get_agent kept_agent assign handle_headers lowercase_keys
    make_agent merge_headers request_headers used_proxy can_handle_authentication credential
    prepare_headers get_proxy_url check_bypass proxy_variable any_host has_host request_port
    upper_hosts lookup text_eq insert is_space split to_upper to_lower trim env_text print_nat
    new_http_client
bearer_sent = refl

abbrev behind_proxy : Process
behind_proxy = record process { env = (codes "no_proxy", codes "x.io, A.io:443") ∷ [] }

check_bypass_iff_example : (check_bypass behind_proxy url_a ≡ true) ↔ (
    (url_a.hostname ≢ [])
    × (no_proxy behind_proxy ≢ [])
    × Matched (upper_hosts url_a) (split b',' (no_proxy behind_proxy)))
check_bypass_iff_example = check_bypass_iff behind_proxy url_a

check_bypass_run : check_bypass behind_proxy url_a ≡ true
unfolding check_bypass any_host has_host upper_hosts request_port env_text lookup text_eq split trim
    is_space to_upper print_nat
check_bypass_run = refl

abbrev parse_json : ParseJson
parse_json dates body = some (obj (field (codes "value") (str (codes "tok")) end))

abbrev oidc_env : Dict Text
oidc_env =
    (codes "ACTIONS_ID_TOKEN_REQUEST_TOKEN", codes "r")
    ∷ (codes "ACTIONS_ID_TOKEN_REQUEST_URL", codes "https://b.io/")
    ∷ []

-- The service answers at once.
abbrev ready : Net ℕ
ready = record (start []) { process = record process { env = oidc_env }; outside = 2 }

abbrev token_run : Result Thrown Value × Net ℕ
token_run = get_id_token site network parse_json [] ready

get_id_token-masked_example :
    (truthy (str (codes "tok")) ≡ true)
    × ((p : Process) × (token_run.1.process ≡ set_secret (str (codes "tok")) p))
unfolding debug issue_command request request_at tries try_once allowed_target answer_of
    downgrade_error find_handler follow handle_authentication is_downgrade is_redirect_code
    is_retry_code is_retryable_verb last_response redirect_headers redirect_location redirect_step
    redirect_target redirects request_raw respond strip_authorization turn_of wait with_length
    extra_tries backoff_delay prepare_request prepared get_agent kept_agent assign handle_headers
    lowercase_keys make_agent merge_headers request_headers used_proxy can_handle_authentication
    credential prepare_headers get_proxy_url check_bypass proxy_variable any_host has_host
    request_port upper_hosts lookup text_eq insert is_space split to_upper to_lower trim env_text
    print_nat new_http_client required_variable get_request_token get_id_token_url retrying
    create_http_client token_of received reported token_url receive get_call mask log_url report
    get_id_token deserializes_dates read_json read_body process_response process_answer with_default
    resolve get_json get_existing_or_default_header lookup_field
get_id_token-masked_example =
    get_id_token-masked site network parse_json [] ready token_run.1 (str (codes "tok")) refl

-- A client that was disposed of sends nothing.
disposed_run :
    (request site network
      (codes "GET")
      (codes "https://a.io/")
      none
      given
      (dispose (start []))).1.sent
    ≡ []
unfolding request request_at dispose
disposed_run = refl
