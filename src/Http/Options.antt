-- ===== src/Http/Options.antt =====
-- The options and the fields of the class HttpClient of the toolkit's http-client, its constructor,
-- and the agents (.github/actions/propose/dist/index.js).
use forta_node_tr.Prelude.{ℕ, Text, Dict, List, Bool, true, false, Option, none, some}
use forta_node_tr.Http.Handlers.{Handler}

pub record RequestOptions : Type 0 where
  pub headers : Option (Dict Text)
  pub ignore_ssl_error : Option Bool
  pub socket_timeout : Option ℕ
  pub allow_redirects : Option Bool
  pub allow_redirect_downgrade : Option Bool
  pub max_redirects : Option ℕ
  pub max_sockets : Option ℕ
  pub keep_alive : Option Bool
  pub allow_retries : Option Bool
  pub max_retries : Option ℕ
  pub deserialize_dates : Bool

-- The most sockets of an agent: a number, or the limit of the global agent.
pub data Sockets : Type 0 where
  at_most : ℕ → Sockets
  global_limit : Sockets

pub record ProxyOptions : Type 0 where
  pub proxy_auth : Option Text
  pub host : Text
  pub port : Text

-- `tunnel` says whether the request and whether the proxy use TLS.
pub data AgentKind : Type 0 where
  tunnel : Bool → Bool → Sockets → Bool → ProxyOptions → AgentKind
  own : Bool → Bool → Sockets → AgentKind
  global_agent : Bool → AgentKind

pub record Agent : Type 0 where
  pub kind : AgentKind
  pub reject_unauthorized : Bool

pub record HttpClient : Type 0 where
  pub user_agent : Option Text
  pub handlers : List Handler
  pub request_options : Option RequestOptions
  pub ignore_ssl_error : Bool
  pub socket_timeout : Option ℕ
  pub allow_redirects : Bool
  pub allow_redirect_downgrade : Bool
  pub max_redirects : ℕ
  pub allow_retries : Bool
  pub max_retries : ℕ
  pub keep_alive : Bool
  pub disposed : Bool
  pub agent : Option Agent
  pub proxy_agent : Option Agent

abbrev pub or_else : {A : Type 0} → Option A → A → A
or_else none d = d
or_else (some a) d = a

abbrev pub option_of : {A : Type 0} → (RequestOptions → Option A) → Option RequestOptions → Option A
option_of f none = none
option_of f (some o) = f o

-- The constructor: the defaults, and what the options replace.
unfoldable pub new_http_client : Option Text → List Handler → Option RequestOptions → HttpClient
new_http_client user_agent handlers options = record {
  user_agent = user_agent;
  handlers = handlers;
  request_options = options;
  ignore_ssl_error = or_else (option_of (λ (o : RequestOptions). o.ignore_ssl_error) options) false;
  socket_timeout = option_of (λ (o : RequestOptions). o.socket_timeout) options;
  allow_redirects = or_else (option_of (λ (o : RequestOptions). o.allow_redirects) options) true;
  allow_redirect_downgrade =
      or_else (option_of (λ (o : RequestOptions). o.allow_redirect_downgrade) options) false;
  max_redirects = or_else (option_of (λ (o : RequestOptions). o.max_redirects) options) 50;
  allow_retries = or_else (option_of (λ (o : RequestOptions). o.allow_retries) options) false;
  max_retries = or_else (option_of (λ (o : RequestOptions). o.max_retries) options) 1;
  keep_alive = or_else (option_of (λ (o : RequestOptions). o.keep_alive) options) false;
  disposed = false;
  agent = none;
  proxy_agent = none;
}
