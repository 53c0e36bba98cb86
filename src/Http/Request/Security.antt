-- ===== src/Http/Request/Security.antt =====
-- What HttpClient.request of the toolkit's http-client keeps from other servers when a response
-- redirects (.github/actions/propose/dist/index.js).
use forta_node_tr.Prelude.{
  Text, Dict, List, [], ◌∷◌, ◌++◌, true, false, not, ◌&&◌, Option, none, some, Result, ok, err,
  codes, text_eq, lookup, insert, to_lower, lookup-insert, ◌≡◌, refl, sym, ap, subst, ◌∙◌, ◌⊎◌, inl,
  inr, Bool-cases, All, if◌then◌else◌, text_eq_iff, true≢false,
}
use forta_node_tr.Js.{Thrown, print_nat}
use forta_node_tr.Http.Encoding.{byte_length}
use forta_node_tr.Http.Options.{HttpClient, RequestOptions, Agent, option_of, or_else}
use forta_node_tr.Http.Url.{Url, ParseUrl}
use forta_node_tr.Http.Client.{
  Info, Net, prepare_request, prepared, is_https, get_agent, lowercase_keys, request_headers,
  merge_headers, handle_headers,
}
use forta_node_tr.Http.Request.{
  Send, with_length, request, redirect_target, allowed_target, downgrade_error, is_downgrade,
  redirect_headers, strip_authorization,
}
use forta_node_tr.Http.Request.Turns.{policy, Post}
use forta_node_tr.Http.Request.Limits.{request_lem}

-- What a prepared request holds of its url and of the headers.
Fields : HttpClient → Url → Dict Text → Info → Type 0
Fields c u headers info =
    (info.using_ssl ≡ is_https u)
    × (info.host ≡ u.hostname)
    × (info.headers ≡ request_headers c headers)

prepared_lem :
    {S : Type 0} (c : HttpClient) (verb : Text) (u : Url) (headers : Dict Text)
    (x : Result Thrown Agent × Net S)
    → Post (Fields c u headers) (prepared c verb u headers x).0
unfolding prepared Fields
prepared_lem c verb u headers (ok agent, n) = (refl, refl, refl)
prepared_lem c verb u headers (err e, n) = tt

prepare_request-Fields :
    {S : Type 0} (parse_url : ParseUrl) (verb : Text) (u : Url) (headers : Dict Text) (n n' : Net S)
    (info : Info)
    → prepare_request parse_url verb u headers n ≡ (ok info, n')
    → Fields n.client u headers info
unfolding prepare_request
prepare_request-Fields parse_url verb u headers n n' info h =
    subst (λ x. Post (Fields n.client u headers) x.0) h
      (prepared_lem n.client verb u headers (get_agent parse_url u n))

length-Fields :
    (c : HttpClient) (u : Url) (headers : Dict Text) (body : Option Text) (info : Info)
    → Fields c u headers info
    → (with_length body info).using_ssl ≡ is_https u
unfolding with_length Fields
length-Fields c u headers none info h = h.0
length-Fields c u headers (some b) info h = h.0

-- A target that is no downgrade from TLS uses TLS.
allowed_target_lem :
    (c : HttpClient) (from : Url) (o : Option Url)
    → c.allow_redirect_downgrade ≡ false
    → is_https from ≡ true
    → Post (λ to. is_https to ≡ true) (allowed_target c from o)
unfolding allowed_target is_downgrade downgrade_error
allowed_target_lem c from none strict tls = tt
allowed_target_lem c from (some to) strict tls = elim (Bool-cases (is_https to)) [
  | inl e ↦ elim (Bool-cases (is_downgrade from to && not c.allow_redirect_downgrade)) [
    | inl g ↦ rw g tt
    | inr g ↦ rw g e
  ]
  | inr e ↦ elim (Bool-cases (text_eq from.protocol to.protocol)) [
    | inl g ↦ absurd (
        true≢false (
          sym tls
          ∙ ap (λ p. text_eq p (codes "https:")) ((text_eq_iff from.protocol to.protocol).0 g)
          ∙ e))
    | inr g ↦ rw (tls, g, strict) tt
  ]
]

target_is_https :
    (parse_url : ParseUrl) (c : HttpClient) (from to : Url) (location : Text)
    → c.allow_redirect_downgrade ≡ false
    → is_https from ≡ true
    → redirect_target parse_url c from location ≡ ok to
    → is_https to ≡ true
unfolding redirect_target
target_is_https parse_url c from to location strict tls h =
    subst (Post (λ to. is_https to ≡ true)) h
      (allowed_target_lem c from (parse_url location) strict tls)

-- The client adds no header of its own, except for its name.
abbrev pub PlainClient : HttpClient → Type 0
PlainClient c =
    (c.handlers ≡ []) × (option_of (λ (o : RequestOptions). o.headers) c.request_options ≡ none)

abbrev authorization : Text
authorization = codes "authorization"

lowercase_keys-strip :
    (headers done : Dict Text)
    → lookup authorization done ≡ none
    → lookup authorization (lowercase_keys done (strip_authorization headers)) ≡ none
unfolding lowercase_keys strip_authorization
lowercase_keys-strip [] done h = h
lowercase_keys-strip ((k, v) ∷ headers) done h =
    elim (Bool-cases (text_eq (to_lower k) authorization)) [
      | inl e ↦ rw e (lowercase_keys-strip headers done h)
      | inr e ↦ rw e (
          lowercase_keys-strip headers (insert (to_lower k) v done) (
            lookup-insert (to_lower k) authorization v done
            ∙ ap (λ b. if b then some v else lookup authorization done) e
            ∙ h))
    ]

with_name :
    (name : Option Text) (headers : Dict Text)
    → lookup authorization headers ≡ none
    → lookup authorization
        (elim name [ none ↦ headers | some n ↦ insert (codes "user-agent") n headers ])
      ≡ none
unfolding lookup text_eq
with_name none headers h = h
with_name (some n) headers h = lookup-insert (codes "user-agent") authorization n headers ∙ h

merge_headers-plain :
    (c : HttpClient) (headers : Dict Text)
    → option_of (λ (o : RequestOptions). o.headers) c.request_options ≡ none
    → merge_headers c headers ≡ lowercase_keys [] headers
unfolding merge_headers
merge_headers-plain c headers e = rw (e, merge_headers) refl

request_headers-strip :
    (c : HttpClient) (headers : Dict Text)
    → PlainClient c
    → lookup authorization (request_headers c (strip_authorization headers)) ≡ none
unfolding request_headers handle_headers lookup
request_headers-strip c headers (no_handlers, no_headers) = rw no_handlers (
    with_name c.user_agent (merge_headers c (strip_authorization headers)) (
      ap (lookup authorization) (merge_headers-plain c (strip_authorization headers) no_headers)
      ∙ lowercase_keys-strip headers [] refl))

-- A request is for the host, or bears no credentials.
abbrev pub Guarded : Url → Info → Type 0
Guarded u info = (text_eq info.host u.hostname ≡ true) ⊎ (lookup authorization info.headers ≡ none)

with_length-Guarded :
    (u : Url) (body : Option Text) (info : Info)
    → Guarded u info
    → Guarded u (with_length body info)
unfolding with_length lookup text_eq
with_length-Guarded u none info g = g
with_length-Guarded u (some b) info (inl e) = inl e
with_length-Guarded u (some b) info (inr e) = inr (
    lookup-insert (codes "Content-Length") authorization (print_nat (byte_length b)) info.headers
    ∙ e)

redirect-Guarded :
    (c : HttpClient) (from to : Url) (headers : Dict Text) (info : Info)
    → PlainClient c
    → Fields c to (redirect_headers from to headers) info
    → Guarded from info
unfolding Fields redirect_headers
redirect-Guarded c from to headers info plain (_, at, has) =
    elim (Bool-cases (text_eq to.hostname from.hostname)) [
      | inl e ↦ inl (ap (λ x. text_eq x from.hostname) at ∙ e)
      | inr e ↦ inr (
          ap (lookup authorization) has
          ∙ ap
              (λ b.
                lookup authorization
                  (request_headers c (if b then headers else strip_authorization headers)))
              e
          ∙ request_headers-strip c headers plain)
    ]

same_plain : (c d : HttpClient) → policy d ≡ policy c → PlainClient c → PlainClient d
unfolding policy
same_plain c d o (a, b) = (
  ap (λ (x : HttpClient). x.handlers) o ∙ a,
  ap (λ (x : HttpClient). option_of (λ (y : RequestOptions). y.headers) x.request_options) o ∙ b,
)

first-Guarded :
    (c : HttpClient) (u : Url) (headers : Dict Text) (info : Info)
    → Fields c u headers info
    → Guarded u info
unfolding Fields
first-Guarded c u headers info (_, at, has) =
    inl (ap (λ x. text_eq x u.hostname) at ∙ (text_eq_iff u.hostname u.hostname).1 refl)

module _ {S : Type 0} (parse_url : ParseUrl) (send : Send S) (verb request_url : Text)
    (body : Option Text) (headers : Dict Text) where
  -- Where the client does not allow downgrades, a request to an https url is sent over TLS only,
  -- wherever its responses redirect to and however often it is tried again.
  pub request_tls :
      (n : Net S) (u : Url)
      → parse_url request_url ≡ some u
      → is_https u ≡ true
      → n.client.allow_redirect_downgrade ≡ false
      → (new : List Info) × ((request parse_url send verb request_url body headers n).1.sent
          ≡ n.sent ++ new)
        × All (λ info. info.using_ssl ≡ true) new
  request_tls n u h tls strict =
      let P : Info → Type 0 = λ info. info.using_ssl ≡ true in
      let (j, le, ((new, e, p, l), d, o), r) =
        request_lem parse_url send verb request_url body headers P n (λ v g.
          let tls_v : is_https v ≡ true = ap (λ o. is_https (or_else o v)) (sym g ∙ h) ∙ tls in
          (
            (λ a b info _ q.
                length-Fields a.client v headers body info
                  (prepare_request-Fields parse_url verb v headers a b info q)
                ∙ tls_v),
            (λ location to hs t a b info _ q.
                length-Fields a.client to (redirect_headers v to hs) body info
                  (prepare_request-Fields parse_url verb to (redirect_headers v to hs) a b info q)
                ∙ target_is_https parse_url n.client v to location strict tls_v t),
          )) in
      (new, e, p)

  -- A client that adds no headers of its own sends the `authorization` of a call, in whatever case
  -- it is written, to the host of the call only, wherever the responses redirect to and however
  -- often it is tried again.
  pub request_credentials :
      (n : Net S) (u : Url)
      → parse_url request_url ≡ some u
      → PlainClient n.client
      → (new : List Info) × ((request parse_url send verb request_url body headers n).1.sent
          ≡ n.sent ++ new)
        × All (Guarded u) new
  request_credentials n u h plain =
      let (j, le, ((new, e, p, l), d, o), r) =
        request_lem parse_url send verb request_url body headers (Guarded u) n (λ v g.
          let same : v ≡ u = ap (λ o. or_else o v) (sym g ∙ h) in
          (
            (λ a b info _ q. with_length-Guarded u body info (
                subst (λ w. Guarded w info) same
                  (first-Guarded a.client v headers info
                    (prepare_request-Fields parse_url verb v headers a b info q)))),
            (λ location to hs t a b info pol q. with_length-Guarded u body info (
                subst (λ w. Guarded w info) same
                  (redirect-Guarded a.client v to hs info (same_plain n.client a.client pol plain) (
                    prepare_request-Fields parse_url verb to (redirect_headers v to hs) a b info
                      q)))),
          )) in
      (new, e, p)
