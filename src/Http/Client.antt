-- ===== src/Http/Client.antt =====
-- How the class HttpClient of the toolkit's http-client (.github/actions/propose/dist/index.js)
-- prepares a request: its headers and its agent.
use forta_node_tr.Prelude.{
  ℕ, Text, Dict, List, [], ◌∷◌, ◌++◌, Bool, true, false, not, ◌&&◌, Option, none, some, codes,
  is_empty, text_eq, or_text, ◌==◌, if◌then◌else◌, lookup, insert, to_lower, Result, ok, err,
  Effect,
}
use forta_node_tr.Js.{Thrown}
use forta_node_tr.Actions.Process.{Process}
use forta_node_tr.Http.Options.{
  RequestOptions, HttpClient, Sockets, at_most, global_limit, ProxyOptions, Agent, tunnel, own,
  global_agent, or_else, option_of,
}
use forta_node_tr.Http.Url.{Url, ParseUrl}
use forta_node_tr.Http.Proxy.{get_proxy_url, read_digits}
use forta_node_tr.Http.Handlers.{Handler, prepare_headers}

-- What a request is sent with; `using_ssl` chooses the module, https or http.
pub record Info : Type 0 where
  pub url : Url
  pub using_ssl : Bool
  pub host : Text
  pub port : ℕ
  pub path : Text
  pub verb : Text
  pub headers : Dict Text
  pub agent : Agent

pub record HttpResponse : Type 0 where
  pub status : ℕ
  pub headers : Dict Text
  pub body : Text

-- The client, whether the global TLS agent checks certificates, the process, the state of the
-- network, and what was sent and how long was waited, in order.
pub record Net (S : Type 0) : Type 0 where
  pub client : HttpClient
  pub https_global_verifies : Bool
  pub process : Process
  pub outside : S
  pub sent : List Info
  pub delays : List ℕ

abbrev pub is_https : Url → Bool
is_https u = text_eq u.protocol (codes "https:")

-- `lowercaseKeys`, onto the headers that are there.
unfoldable pub lowercase_keys : Dict Text → Dict Text → Dict Text
lowercase_keys done [] = done
lowercase_keys done ((k, v) ∷ headers) = lowercase_keys (insert (to_lower k) v done) headers

-- `Object.assign` of keys onto the headers that are there.
unfoldable pub assign : Dict Text → Dict Text → Dict Text
assign done [] = done
assign done ((k, v) ∷ headers) = assign (insert k v done) headers

unfoldable pub merge_headers : HttpClient → Dict Text → Dict Text
merge_headers c headers = elim (option_of (λ (o : RequestOptions). o.headers) c.request_options) [
  | none ↦ lowercase_keys [] headers
  | some given ↦ assign (lowercase_keys [] given) (lowercase_keys [] headers)
]

-- A header of the call, of the client's options, or the default; empty ones do not count.
unfoldable pub get_existing_or_default_header : HttpClient → Dict Text → Text → Text → Text
get_existing_or_default_header c additional header default =
    let given : Option (Dict Text) =
      option_of (λ (o : RequestOptions). o.headers) c.request_options in
    let client_header : Text = elim given [
      | none ↦ []
      | some h ↦ or_else (lookup header (lowercase_keys [] h)) []
    ] in
    or_text (or_else (lookup header additional) []) (or_text client_header default)

unfoldable pub handle_headers : List Handler → Dict Text → Dict Text
handle_headers [] headers = headers
handle_headers (h ∷ handlers) headers = handle_headers handlers (prepare_headers h headers)

max_sockets : HttpClient → Sockets
max_sockets c = elim c.request_options [
  | none ↦ at_most 100
  | some o ↦ elim o.max_sockets [
    | none ↦ global_limit
    | some n ↦ if n == 0 then global_limit else at_most n
  ]
]

proxy_options : Url → ProxyOptions
proxy_options proxy = record {
  proxy_auth =
      if is_empty proxy.username && is_empty proxy.password
      then none
      else some (proxy.username ++ codes ":" ++ proxy.password);
  host = proxy.hostname;
  port = proxy.port;
}

-- The agent that is kept, where connections are kept alive.
unfoldable pub kept_agent : HttpClient → Option Url → Option Agent
kept_agent c use_proxy =
    if c.keep_alive then elim use_proxy [ some proxy ↦ c.proxy_agent | none ↦ c.agent ] else none

-- `proxyUrl && proxyUrl.hostname`
unfoldable pub used_proxy : Option Url → Option Url
used_proxy none = none
used_proxy (some proxy) = if is_empty proxy.hostname then none else some proxy

unfoldable pub request_headers : HttpClient → Dict Text → Dict Text
request_headers c headers =
    let merged = merge_headers c headers in
    handle_headers c.handlers
      (elim c.user_agent [ none ↦ merged | some name ↦ insert (codes "user-agent") name merged ])

module _ {S : Type 0} where
  -- A new agent, by the proxy that is used, if any; `agent.options` of it is changed where TLS
  -- errors are to be ignored, and for the global agent that changes the whole process.
  unfoldable pub make_agent : Url → Option Url → Net S → Agent × Net S
  unfolding max_sockets proxy_options
  make_agent u use_proxy n =
      let c = n.client in
      let verifies = not (is_https u && c.ignore_ssl_error) in
      elim use_proxy [
        | some proxy ↦
            let agent : Agent = record {
              kind =
                  tunnel (is_https u) (is_https proxy) (max_sockets c) c.keep_alive
                    (proxy_options proxy);
              reject_unauthorized = verifies;
            } in
            (agent, record n { client = record c { proxy_agent = some agent } })
        | none ↦
            if c.keep_alive
            then (let agent : Agent = record {
              kind = own (is_https u) c.keep_alive (max_sockets c);
              reject_unauthorized = verifies;
            } in
                (agent, record n { client = record c { agent = some agent } }))
            else if is_https u
            then (
              record {
                kind = global_agent true;
                reject_unauthorized = n.https_global_verifies && verifies;
              },
              record n { https_global_verifies = n.https_global_verifies && verifies },
            )
            else (record { kind = global_agent false; reject_unauthorized = true }, n)
      ]

  unfoldable pub get_agent : ParseUrl → Url → Effect (Net S) Thrown Agent
  get_agent parse_url u n = elim (get_proxy_url parse_url n.process u) [
    | err e ↦ (err e, n)
    | ok proxy ↦ elim (kept_agent n.client (used_proxy proxy)) [
      | some agent ↦ (ok agent, n)
      | none ↦ let (agent, n') = make_agent u (used_proxy proxy) n in (ok agent, n')
    ]
  ]

  -- The request for the agent that was found, if any.
  unfoldable pub prepared :
      HttpClient → Text → Url → Dict Text → Result Thrown Agent × Net S → Result Thrown Info × Net S
  prepared c verb u headers (err e, n) = (err e, n)
  prepared c verb u headers (ok agent, n) = (
    ok (record {
      url = u;
      using_ssl = is_https u;
      host = u.hostname;
      port = if is_empty u.port then (if is_https u then 443 else 80) else read_digits 0 u.port;
      path = u.pathname ++ u.search;
      verb = verb;
      headers = request_headers c headers;
      agent = agent;
    }),
    n,
  )

  unfoldable pub prepare_request : ParseUrl → Text → Url → Dict Text → Effect (Net S) Thrown Info
  prepare_request parse_url verb u headers n =
      prepared n.client verb u headers (get_agent parse_url u n)
