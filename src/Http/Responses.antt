-- ===== src/Http/Responses.antt =====
-- The JSON requests of the toolkit's http-client and what becomes of a response: getJson, postJson,
-- putJson, patchJson and _processResponse (.github/actions/propose/dist/index.js). Parsing and
-- printing JSON are parameters; the flag of the parser says that dates are deserialized.
pub mod Statuses
use forta_node_tr.Prelude.{
  ℕ, Text, Dict, List, [], ◌∷◌, ◌++◌, Bool, true, false, Option, none, some, codes, is_empty, ltb,
  ◌==◌, if◌then◌else◌, lookup, insert, Result, ok, err, Effect, pure, ◌>>=◌,
}
use forta_node_tr.Js.{
  Value, Fields, undefined, null, num, str, obj, end, field, truthy, template, lookup_field, Thrown,
  error, value, print_nat,
}
use forta_node_tr.Http.Options.{HttpClient, RequestOptions}
use forta_node_tr.Http.Url.{ParseUrl}
use forta_node_tr.Http.Client.{HttpResponse, Net, get_existing_or_default_header}
use forta_node_tr.Http.Request.{Send, request}

pub record JsonResponse : Type 0 where
  pub status_code : ℕ
  pub result : Value
  pub headers : Dict Text

abbrev pub ParseJson : Type 0
ParseJson = Bool → Text → Option Value

-- HttpClientError, with the result that is put on it.
pub http_client_error : Text → ℕ → Value → Thrown
http_client_error message status result = value (
    obj (
      field (codes "name") (str (codes "HttpClientError")) (
        field (codes "message") (str message)
          (field (codes "statusCode") (num status) (field (codes "result") result end)))))

unfoldable pub deserializes_dates : HttpClient → Bool
deserializes_dates c = elim c.request_options [ none ↦ false | some o ↦ o.deserialize_dates ]

-- What was read of a body: the value, undefined where the body is empty or no JSON, the result
-- and the headers of the response.
pub record Body : Type 0 where
  pub content : Value
  pub result : Value
  pub headers : Dict Text

unfoldable pub read_json : Option Value → Dict Text → Body
read_json none headers = record { content = undefined; result = null; headers = [] }
read_json (some v) headers = record { content = v; result = v; headers = headers }

unfoldable pub read_body : ParseJson → HttpClient → HttpResponse → Body
read_body parse_json c r =
    if is_empty r.body
    then record { content = undefined; result = null; headers = r.headers }
    else read_json (parse_json (deserializes_dates c) r.body) r.headers

-- `obj.message`; only objects have one.
own_message : Value → Value
own_message (obj o) = lookup_field (codes "message") o
own_message v = undefined

pub failure_message : Value → Text → ℕ → Text
failure_message content body status =
    if truthy (own_message content)
    then template (own_message content)
    else if is_empty body
    then codes "Failed request: (" ++ print_nat status ++ codes ")"
    else body

-- A response with status 404 is resolved before its body is read.
unfoldable pub process_response : ParseJson → HttpClient → HttpResponse → Result Thrown JsonResponse
process_response parse_json c r =
    let b = read_body parse_json c r in
    if r.status == 404
    then ok (record { status_code = 404; result = null; headers = [] })
    else if ltb 299 r.status
    then err (http_client_error (failure_message b.content r.body r.status) r.status b.result)
    else ok (record { status_code = r.status; result = b.result; headers = b.headers })

unfoldable pub process_answer :
    ParseJson → HttpClient → Option HttpResponse → Result Thrown JsonResponse
process_answer parse_json c none =
    err (error (codes "TypeError") (codes "Cannot read properties of null (reading 'message')"))
process_answer parse_json c (some r) = process_response parse_json c r

abbrev json_type : Text
json_type = codes "application/json"

-- `additionalHeaders[name] = this._getExistingOrDefaultHeader(…)`
unfoldable pub with_default : HttpClient → Text → Dict Text → Dict Text
with_default c name headers =
    insert name (get_existing_or_default_header c headers name json_type) headers

module _ {S : Type 0} (parse_url : ParseUrl) (send : Send S) (parse_json : ParseJson) where
  unfoldable pub resolve : Option HttpResponse → Effect (Net S) Thrown JsonResponse
  resolve r n = (process_answer parse_json n.client r, n)

  unfoldable pub get_json : Text → Dict Text → Effect (Net S) Thrown JsonResponse
  get_json request_url headers n =
      (request parse_url send (codes "GET") request_url none
            (with_default n.client (codes "accept") headers)
          >>= resolve)
        n

  -- The body that postJson, putJson and patchJson send for a verb; `text` is the JSON of the object.
  pub send_json : Text → Text → Option Text → Dict Text → Effect (Net S) Thrown JsonResponse
  send_json verb request_url text headers n =
      (request parse_url send verb request_url text (
            with_default n.client (codes "content-type")
              (with_default n.client (codes "accept") headers))
          >>= resolve)
        n

  post_json : Text → Option Text → Dict Text → Effect (Net S) Thrown JsonResponse
  post_json = send_json (codes "POST")

  put_json : Text → Option Text → Dict Text → Effect (Net S) Thrown JsonResponse
  put_json = send_json (codes "PUT")

  patch_json : Text → Option Text → Dict Text → Effect (Net S) Thrown JsonResponse
  patch_json = send_json (codes "PATCH")
