-- ===== src/Axios/Tests.antt =====
-- Requests of axios at concrete interceptors, configurations, urls and adapters.
use forta_node_tr.Prelude.{
  ℕ, ◌+◌, Text, List, [], ◌∷◌, ◌++◌, Bool, true, false, none, some, codes, ok, err, Effect, ◌≡◌,
  refl, ◌⊎◌, is_empty, Dict, text_eq, Lacks, join, split, if◌then◌else◌,
}
use forta_node_tr.Js.{bool, Value, str, Fields, end, field, lookup_field, Thrown}
use forta_node_tr.Axios.Interceptors.{Manager}
use forta_node_tr.Axios.Interceptors.Order.{mappings, map_ok, apply_first_first, apply_last_first}
use forta_node_tr.Axios.Validator.{
  is_older_version, older_parts, text_lt, Schema, assert_options, acceptable, every, is_ok,
  assert_options-is_ok,
}
use forta_node_tr.Axios.Config.{keys}
use forta_node_tr.Axios.Query.{Param, many, missing, all_parts, build_url, build_url_fragment}
use forta_node_tr.Axios.Paths.{is_absolute_url}
use forta_node_tr.Axios.Dispatch.{
  AxiosResponse, Reason, cancel, Config, Token, cancelled, dispatch_request, after_adapter,
}
use forta_node_tr.Axios.Dispatch.Outcomes.{dispatch_request-cancelled}

abbrev tagged : Text → Value → Value
tagged t (str s) = str (s ++ t)
tagged t v = v

abbrev echo : Value → Effect ℕ Thrown Value
echo v n = (ok (tagged (codes "|") v), n + 1)

abbrev requests : List (Value → Value)
requests = tagged (codes "a") ∷ tagged (codes "b") ∷ []

abbrev responses : List (Value → Value)
responses = tagged (codes "c") ∷ tagged (codes "d") ∷ []

order_run :
    map_ok (apply_first_first responses) (echo (apply_last_first requests (str [])) 0)
    ≡ (ok (str (codes "ba|cd")), 1)
order_run = refl

abbrev manager : Manager ℕ
manager = mappings false requests

abbrev defaults : Fields
defaults =
    field (codes "url") (str (codes "/d")) (field (codes "baseURL") (str (codes "https://d")) end)

abbrev own : Fields
own = field (codes "method") (str (codes "post")) end

absolute_run : is_absolute_url (codes "HTTP+x://d") ≡ true
unfolding is_absolute_url
absolute_run = refl

-- The state is whether the token was cancelled; the adapter answers and sets it.
abbrev token : Token Bool
token = some (λ s. elim s [ true ↦ some (codes "stop") | false ↦ none ])

abbrev adapter : Config Bool → Effect Bool Reason AxiosResponse
adapter c s = (ok (record { status = 200; body = str []; headers = end }), true)

abbrev config : Config Bool
config = record {
  method = codes "get";
  body = str [];
  headers = end;
  transform_request = [];
  transform_response = [];
}

dispatch_request-cancelled_example :
    (m : Text) × ((dispatch_request adapter token config false).0 ≡ err (cancel m))
unfolding dispatch_request cancelled after_adapter
dispatch_request-cancelled_example =
    dispatch_request-cancelled adapter token config false (codes "stop") refl

abbrev spelled : Dict Text
spelled = (codes "content-type", codes "a") ∷ (codes "CONTENT-TYPE", codes "b") ∷ []

abbrev asked : List (Text × Param)
asked = (codes "q#", many (codes "a b" ∷ codes "#" ∷ [])) ∷ (codes "r", missing) ∷ []

build_url_fragment_example :
    ((is_empty (join (codes "&") (all_parts asked)) ≡ true)
      × (build_url (codes "/p#f") asked ≡ codes "/p#f"))
    ⊎ Lacks b'#' (build_url (codes "/p#f") asked)
build_url_fragment_example = build_url_fragment (codes "/p#f") asked

-- The parts of a version are compared as strings.
tenth_minor_run : is_older_version (codes "1.10.0") (codes "1.9.0") ≡ true
unfolding is_older_version older_parts text_lt split
tenth_minor_run = refl

abbrev flags : Schema
flags k =
    if text_eq k (codes "silentJSONParsing")
    then some (λ v. elim v [ bool b ↦ none | _ ↦ some (codes "a boolean") ])
    else none

abbrev transitional : Fields
transitional = field (codes "silentJSONParsing") (bool true) (field (codes "other") (str []) end)

assert_options-is_ok_example :
    is_ok (assert_options transitional flags false)
    ≡ every (λ k. acceptable (lookup_field k transitional) false (flags k)) (keys transitional)
assert_options-is_ok_example = assert_options-is_ok transitional flags false
