-- ===== src/Http/Proxy.antt =====
-- getProxyUrl and checkBypass of the toolkit's proxy.js
-- (.github/actions/propose/dist/index.js).
pub mod Bypass
use forta_node_tr.Prelude.{
  ℕ, ◌+◌, ◌-◌, ◌*◌, Text, List, [], ◌∷◌, ◌++◌, Bool, true, false, ◌||◌, Option, none, some, codes,
  is_empty, or_text, split, trim, to_upper, text_eq, if◌then◌else◌, Result, ok, err,
}
use forta_node_tr.Js.{Thrown, error, print_nat}
use forta_node_tr.Actions.Process.{Process, env_text}
use forta_node_tr.Http.Url.{Url, ParseUrl}

-- `Number(s)` of the digits of a port.
abbrev pub read_digits : ℕ → Text → ℕ
read_digits n [] = n
read_digits n (c ∷ s) = read_digits (n * 10 + (c - b'0')) s

unfoldable pub request_port : Url → Option ℕ
request_port u =
    if is_empty u.port
    then (if text_eq u.protocol (codes "http:")
        then some 80
        else if text_eq u.protocol (codes "https:")
        then some 443
        else none)
    else some (read_digits 0 u.port)

-- The host in upper case and, where the port is known, the host with its port.
unfoldable pub upper_hosts : Url → List Text
unfolding request_port
upper_hosts u = to_upper u.hostname ∷ (elim (request_port u) [
  | none ↦ []
  | some port ↦ (to_upper u.hostname ++ codes ":" ++ print_nat port) ∷ []
])

-- `upperReqHosts.some(x => x === item)`
unfoldable pub has_host : Text → List Text → Bool
has_host item [] = false
has_host item (host ∷ hosts) = text_eq host item || has_host item hosts

-- The loop over the items of `no_proxy`, with those that trimming leaves empty dropped.
unfoldable pub any_host : List Text → List Text → Bool
any_host hosts [] = false
any_host hosts (item ∷ items) =
    let upper = to_upper (trim item) in
    let rest = any_host hosts items in
    if is_empty upper then rest else if has_host upper hosts then true else rest

unfoldable pub check_bypass : Process → Url → Bool
check_bypass p u =
    let no_proxy = or_text (env_text (codes "no_proxy") p) (env_text (codes "NO_PROXY") p) in
    if is_empty u.hostname
    then false
    else if is_empty no_proxy
    then false
    else any_host (upper_hosts u) (split b',' no_proxy)

-- The variable that names the proxy for a protocol; the lower-case name goes first.
unfoldable pub proxy_variable : Process → Url → Text
proxy_variable p u =
    if text_eq u.protocol (codes "https:")
    then or_text (env_text (codes "https_proxy") p) (env_text (codes "HTTPS_PROXY") p)
    else or_text (env_text (codes "http_proxy") p) (env_text (codes "HTTP_PROXY") p)

unfoldable pub get_proxy_url : ParseUrl → Process → Url → Result Thrown (Option Url)
get_proxy_url parse_url p u =
    let proxy_var = proxy_variable p u in
    if check_bypass p u
    then ok none
    else if is_empty proxy_var
    then ok none
    else elim (parse_url proxy_var) [
      | some proxy_url ↦ ok (some proxy_url)
      | none ↦ err (error (codes "TypeError") (codes "Invalid URL"))
    ]
