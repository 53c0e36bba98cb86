-- ===== src/Http/Request.antt =====
-- HttpClient.request of the toolkit's http-client (.github/actions/propose/dist/index.js): the
-- tries, the redirects and the waits between tries. What answers a request is a parameter, as is
-- the parser of URLs; the body of a request is a string or is missing.
pub mod Turns
pub mod Tries
pub mod Loop
pub mod Limits
pub mod Security
use forta_node_tr.Prelude.{
  ℕ, zero, suc, ◌+◌, ◌*◌, ◌^◌, min, Text, Dict, List, [], ◌∷◌, ◌++◌, Bool, true, false, not, ◌&&◌,
  ◌||◌, Option, none, some, codes, is_empty, text_eq, ◌==◌, if◌then◌else◌, lookup, insert, to_lower,
  Result, ok, err, Effect, pure, ◌>>=◌, ◌>>◌,
}
use forta_node_tr.Js.{Thrown, error, print_nat}
use forta_node_tr.Http.Encoding.{byte_length}
use forta_node_tr.Http.Handlers.{Handler, can_handle_authentication}
use forta_node_tr.Http.Options.{HttpClient, or_else}
use forta_node_tr.Http.Url.{Url, ParseUrl}
use forta_node_tr.Http.Client.{Info, HttpResponse, Net, prepare_request, is_https}

-- `HttpRedirectCodes.indexOf(code) != -1`
unfoldable pub is_redirect_code : ℕ → Bool
is_redirect_code c = c == 301 || c == 302 || c == 303 || c == 307 || c == 308

-- `HttpResponseRetryCodes.indexOf(code) != -1`
unfoldable pub is_retry_code : ℕ → Bool
is_retry_code c = c == 502 || c == 503 || c == 504

unfoldable pub is_retryable_verb : Text → Bool
is_retryable_verb verb =
    text_eq verb (codes "OPTIONS")
    || text_eq verb (codes "GET")
    || text_eq verb (codes "DELETE")
    || text_eq verb (codes "HEAD")

-- How many tries follow the first one: only reads are tried again.
unfoldable pub extra_tries : HttpClient → Text → ℕ
extra_tries c verb = if c.allow_retries && is_retryable_verb verb then c.max_retries else 0

-- The wait after a number of tries, in milliseconds.
unfoldable pub backoff_delay : ℕ → ℕ
backoff_delay n = 5 * 2 ^ min 10 n

-- The first handler that can answer a challenge.
unfoldable pub find_handler : List Handler → Option Handler
find_handler [] = none
find_handler (h ∷ hs) = if can_handle_authentication h then some h else find_handler hs

-- `for (header in headers)`, that deletes `authorization` in any case.
unfoldable pub strip_authorization : Dict Text → Dict Text
strip_authorization [] = []
strip_authorization ((k, v) ∷ headers) =
    if text_eq (to_lower k) (codes "authorization")
    then strip_authorization headers
    else (k, v) ∷ strip_authorization headers

unfoldable pub redirect_headers : Url → Url → Dict Text → Dict Text
redirect_headers from to headers =
    if text_eq to.hostname from.hostname then headers else strip_authorization headers

-- A redirect that leaves TLS.
unfoldable pub is_downgrade : Url → Url → Bool
is_downgrade from to = is_https from && not (text_eq from.protocol to.protocol)

unfoldable pub downgrade_error : Thrown
downgrade_error = error (codes "Error") (
    codes
      "Redirect from HTTPS to HTTP protocol. This downgrade is not allowed for security reasons. If you want to allow this behavior, set the allowRedirectDowngrade option to true.")

-- What answers a request: a response, or an error or a timeout, that the promise rejects with.
abbrev pub Send : Type 0 → Type 0
Send S = Info → Option Text → Effect S Thrown HttpResponse

-- The last request, the headers of the call, and the response.
pub record Answer : Type 0 where
  pub info : Info
  pub headers : Dict Text
  pub response : HttpResponse

-- The `Content-Length` of a body that is a string, an empty one included.
unfoldable pub with_length : Option Text → Info → Info
with_length none info = info
with_length (some body) info = record info {
  headers = insert (codes "Content-Length") (print_nat (byte_length body)) info.headers;
}

-- The url of a redirect, or what is thrown in its place.
unfoldable pub allowed_target : HttpClient → Url → Option Url → Result Thrown Url
unfolding downgrade_error
allowed_target c from none = err (error (codes "TypeError") (codes "Invalid URL"))
allowed_target c from (some to) =
    if is_downgrade from to && not c.allow_redirect_downgrade then err downgrade_error else ok to

unfoldable pub redirect_target : ParseUrl → HttpClient → Url → Text → Result Thrown Url
redirect_target parse_url c from location = allowed_target c from (parse_url location)

-- Where a response redirects to, if the client follows it.
unfoldable pub redirect_location : HttpClient → HttpResponse → Option Text
redirect_location c r =
    if is_redirect_code r.status && c.allow_redirects
    then elim (lookup (codes "location") r.headers) [
      | none ↦ none
      | some location ↦ if is_empty location then none else some location
    ]
    else none

-- The answer to a request, with the request and the headers of the call.
unfoldable pub answer_of :
    {S : Type 0} → Dict Text → Info → Result Thrown HttpResponse × S → Result Thrown Answer × S
answer_of headers info (ok r, s) = (ok (record { info = info; headers = headers; response = r }), s)
answer_of headers info (err e, s) = (err e, s)

-- `handleAuthentication` of the handlers gives null.
unfoldable pub handle_authentication : Handler → Option HttpResponse
handle_authentication h = none

-- A try ends the request, or may be followed by another.
pub data Turn : Type 0 where
  done : Option HttpResponse → Turn
  again : Answer → Turn

unfoldable pub turn_of : {S : Type 0} → Answer → Effect (Net S) Thrown Turn
turn_of a n = (ok (if is_retry_code a.response.status then again a else done (some a.response)), n)

-- What is returned when no try is left.
unfoldable pub last_response : Turn → Option HttpResponse
last_response (done r) = r
last_response (again a) = some a.response

-- `_performExponentialBackoff`
unfoldable pub wait : {S : Type 0} → ℕ → Effect (Net S) Thrown (Unit {0})
wait num n = (ok tt, record n { delays = n.delays ++ (backoff_delay num ∷ []) })

module _ {S : Type 0} (parse_url : ParseUrl) (send : Send S) where
  -- requestRaw
  unfoldable pub request_raw : Option Text → Info → Effect (Net S) Thrown HttpResponse
  request_raw body info n =
      let info' = with_length body info in
      let (r, s) = send info' body n.outside in
      (r, record n { outside = s; sent = n.sent ++ (info' ∷ []) })

  -- One request that follows a redirect.
  unfoldable pub follow : Option Text → Text → Url → Dict Text → Effect (Net S) Thrown Answer
  unfolding answer_of
  follow body verb to headers = prepare_request parse_url verb to headers >>= λ info n.
      answer_of headers info (request_raw body info n)

  -- One turn of the loop over the redirects; `next` is the turns that are left.
  unfoldable pub redirect_step :
      Option Text
      → Text
      → Url
      → (Answer → Effect (Net S) Thrown Answer)
      → Answer
      → Effect (Net S) Thrown Answer
  redirect_step body verb from next a n = elim (redirect_location n.client a.response) [
    | none ↦ (ok a, n)
    | some location ↦ elim (redirect_target parse_url n.client from location) [
      | err e ↦ (err e, n)
      | ok to ↦ (follow body verb to (redirect_headers from to a.headers) >>= next) n
    ]
  ]

  -- The loop over the redirects, with how many remain.
  unfoldable pub redirects : ℕ → Option Text → Text → Url → Answer → Effect (Net S) Thrown Answer
  redirects zero body verb from a n = (ok a, n)
  redirects (suc k) body verb from a n =
      redirect_step body verb from (λ b. redirects k body verb from b) a n

  -- What follows the response to a try: a challenge, or the redirects.
  unfoldable pub respond : Option Text → Text → Url → Answer → Effect (Net S) Thrown Turn
  unfolding turn_of
  respond body verb from a n =
      if a.response.status == 401
      then elim (find_handler n.client.handlers) [
        | some h ↦ (ok (done (handle_authentication h)), n)
        | none ↦ (ok (done (some a.response)), n)
      ]
      else (redirects n.client.max_redirects body verb from a >>= turn_of) n

  -- One try.
  unfoldable pub try_once : Option Text → Text → Url → Info → Dict Text → Effect (Net S) Thrown Turn
  unfolding answer_of
  try_once body verb from info headers =
      (λ n. answer_of headers info (request_raw body info n)) >>= respond body verb from

  -- The loop over the tries: how many may follow this one, and its number.
  unfoldable pub tries :
      ℕ
      → ℕ
      → Option Text
      → Text
      → Url
      → Info
      → Dict Text
      → Effect (Net S) Thrown (Option HttpResponse)
  unfolding wait last_response
  tries zero num body verb from info headers =
      try_once body verb from info headers >>= λ t. pure (last_response t)
  tries (suc k) num body verb from info headers = try_once body verb from info headers >>= λ t.
      elim t [
        | done r ↦ pure r
        | again a ↦ wait num >> tries k (suc num) body verb from a.info a.headers
      ]

  -- `request` on a client that is disposed of or not, with the url as it was parsed.
  unfoldable pub request_at :
      Bool
      → Option Url
      → Text
      → Option Text
      → Dict Text
      → Effect (Net S) Thrown (Option HttpResponse)
  request_at true u verb body headers n =
      (err (error (codes "Error") (codes "Client has already been disposed.")), n)
  request_at false none verb body headers n =
      (err (error (codes "TypeError") (codes "Invalid URL")), n)
  request_at false (some u) verb body headers n =
      (prepare_request parse_url verb u headers >>= λ info.
      tries (extra_tries n.client verb) 1 body verb u info headers)
        n

  unfoldable pub request :
      Text → Text → Option Text → Dict Text → Effect (Net S) Thrown (Option HttpResponse)
  request verb request_url body headers n =
      request_at n.client.disposed (parse_url request_url) verb body headers n

  -- The methods that name a verb; without headers, there are none.
  pub options : Text → Dict Text → Effect (Net S) Thrown (Option HttpResponse)
  options request_url headers = request (codes "OPTIONS") request_url none headers

  get_url : Text → Dict Text → Effect (Net S) Thrown (Option HttpResponse)
  get_url request_url headers = request (codes "GET") request_url none headers

  del : Text → Dict Text → Effect (Net S) Thrown (Option HttpResponse)
  del request_url headers = request (codes "DELETE") request_url none headers

  unfoldable pub post : Text → Option Text → Dict Text → Effect (Net S) Thrown (Option HttpResponse)
  post request_url body headers = request (codes "POST") request_url body headers

  pub patch : Text → Option Text → Dict Text → Effect (Net S) Thrown (Option HttpResponse)
  patch request_url body headers = request (codes "PATCH") request_url body headers

  unfoldable pub put : Text → Option Text → Dict Text → Effect (Net S) Thrown (Option HttpResponse)
  put request_url body headers = request (codes "PUT") request_url body headers

  pub head : Text → Dict Text → Effect (Net S) Thrown (Option HttpResponse)
  head request_url headers = request (codes "HEAD") request_url none headers

-- `dispose`; the sockets of the agent that is destroyed are not modelled.
unfoldable pub dispose : {S : Type 0} → Net S → Net S
dispose n = record n { client = record n.client { disposed = true } }
