-- ===== src/Http/Responses/Statuses.antt =====
-- Which responses the JSON requests of the toolkit's http-client accept, and how often they send
-- (.github/actions/propose/dist/index.js).
use forta_node_tr.Prelude.{Bool, true, false, ◌||◌, leb, ◌==◌, Result, ok, err, ◌≡◌, arith}
use forta_node_tr.Js.{Thrown}
use forta_node_tr.Http.Options.{HttpClient}
use forta_node_tr.Http.Client.{HttpResponse}
use forta_node_tr.Http.Responses.{ParseJson, process_response}

abbrev pub is_ok : {A : Type 0} → Result Thrown A → Bool
is_ok (ok a) = true
is_ok (err e) = false

-- A response is accepted exactly when its status is below 300 or is 404.
process_response-is_ok :
    (parse_json : ParseJson) (c : HttpClient) (r : HttpResponse)
    → is_ok (process_response parse_json c r) ≡ (leb r.status 299 || r.status == 404)
unfolding process_response
process_response-is_ok parse_json c r = ground arith
