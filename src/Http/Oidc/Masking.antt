-- ===== src/Http/Oidc/Masking.antt =====
-- An ID token that OidcClient returns is masked in the log first
-- (.github/actions/propose/dist/index.js).
use forta_node_tr.Prelude.{
  Text, true, Result, ok, err, ◌≡◌, refl, subst, inl, inr, Bool-cases, result_cases, codes, [],
}
use forta_node_tr.Js.{Value, Thrown, truthy, thrown_member}
use forta_node_tr.Actions.Process.{Process}
use forta_node_tr.Actions.Core.{set_secret}
use forta_node_tr.Http.Url.{ParseUrl}
use forta_node_tr.Http.Client.{Net}
use forta_node_tr.Http.Request.{Send}
use forta_node_tr.Http.Request.Turns.{Post}
use forta_node_tr.Http.Responses.{JsonResponse, ParseJson, get_json}
use forta_node_tr.Http.Oidc.{
  received, token_of, reported, get_call, mask, get_id_token, create_http_client, get_id_token_url,
  token_url, log_url, receive, report,
}

abbrev IsToken : Value → Type 0
IsToken t = truthy t ≡ true

received_lem : (r : Result Thrown JsonResponse) → Post IsToken (received r)
unfolding received
received_lem (err e) = tt
received_lem (ok r) = elim (Bool-cases (truthy (token_of r.result))) [
  | inl h ↦ rw h h
  | inr h ↦ rw h tt
]

-- The last thing that was written to the log masks the token.
abbrev Masked : {S : Type 0} → Result Thrown Value × Net S → Type 0
Masked (err e, n) = Unit
Masked (ok t, n) = IsToken t × ((p : Process) × (n.process ≡ set_secret t p))

module _ {S : Type 0} (parse_url : ParseUrl) (send : Send S) (parse_json : ParseJson) where
  receive_lem :
      (x : Result Thrown JsonResponse × Net S)
      → Post IsToken (receive parse_url send parse_json x).0
  unfolding receive
  receive_lem (r, n) = received_lem r

  get_call_lem :
      (url : Text) (n : Net S) → Post IsToken (get_call parse_url send parse_json url n).0
  unfolding get_call
  get_call_lem url n = elim (result_cases (create_http_client n.process)) [
    | inr (e, h) ↦ rw (h, get_call) tt
    | inl (c, h) ↦
        rw (h, get_call)
          (receive_lem (get_json parse_url send parse_json url [] (record n { client = c })))
  ]

  mask_lem :
      (x : Result Thrown Value × Net S)
      → Post IsToken x.0
      → Masked (mask parse_url send parse_json x)
  unfolding mask
  mask_lem (ok t, n) h = (h, (n.process, refl))
  mask_lem (err e, n) h = tt

  report_lem :
      (x : Result Thrown Value × Net S) → Masked x → Masked (report parse_url send parse_json x)
  unfolding report reported
  report_lem (ok t, n) h = h
  report_lem (err e, n) h = elim (result_cases (thrown_member (codes "message") e)) [
    | inl (m, g) ↦ rw (g, Masked) tt
    | inr (f, g) ↦ rw (g, Masked) tt
  ]

  get_id_token_lem :
      (audience : Text) (n : Net S) → Masked (get_id_token parse_url send parse_json audience n)
  unfolding get_id_token
  get_id_token_lem audience n = elim (result_cases (get_id_token_url n.process)) [
    | inr (e, h) ↦ rw (h, get_id_token) (report_lem (err e, n) tt)
    | inl (url, h) ↦
        rw (h, get_id_token)
          (let full = token_url audience url in
            report_lem
              (mask parse_url send parse_json (
                get_call parse_url send parse_json full (log_url parse_url send parse_json full n)))
              (mask_lem
                (get_call parse_url send parse_json full (log_url parse_url send parse_json full n))
                (get_call_lem full (log_url parse_url send parse_json full n))))
  ]

  -- A token that is returned is not empty, and the last thing that was written to the log before
  -- is the command that masks it.
  pub get_id_token-masked :
      (audience : Text) (n n' : Net S) (token : Value)
      → get_id_token parse_url send parse_json audience n ≡ (ok token, n')
      → (truthy token ≡ true) × ((p : Process) × (n'.process ≡ set_secret token p))
  get_id_token-masked audience n n' token h = subst Masked h (get_id_token_lem audience n)
