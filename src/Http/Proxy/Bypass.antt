-- ===== src/Http/Proxy/Bypass.antt =====
-- When a request goes round the proxy: checkBypass of the toolkit's proxy.js
-- (.github/actions/propose/dist/index.js) against the list in `no_proxy`.
use forta_node_tr.Prelude.{
  Text, List, [], ◌∷◌, true, codes, is_empty, is_empty_iff, is_empty-eq-false, or_text, split, trim,
  to_upper, text_eq, text_eq_iff, Bool-cases, ◌≡◌, ◌≢◌, ◌↔◌, inl, inr, arith,
}
use forta_node_tr.Actions.Process.{Process, env_text}
use forta_node_tr.Http.Url.{Url}
use forta_node_tr.Http.Proxy.{has_host, any_host, upper_hosts, check_bypass}

-- An item stands in the list.
pub data Lists (x : Text) : List Text → Type 0 where
  here : {l : List Text} → Lists x (x ∷ l)
  there : {y : Text} {l : List Text} → Lists x l → Lists x (y ∷ l)

has_host_sound : (item : Text) (hosts : List Text) → has_host item hosts ≡ true → Lists item hosts
unfolding has_host
has_host_sound item [] h = cc
has_host_sound item (host ∷ hosts) h = elim (Bool-cases (text_eq host item)) [
  | inl same ↦ rw ((text_eq_iff host item).0 same) here
  | inr other ↦ there (has_host_sound item hosts (ground arith))
]

has_host_complete :
    {item : Text} {hosts : List Text} → Lists item hosts → has_host item hosts ≡ true
unfolding has_host
has_host_complete {item} here = ground (arith, text_eq_iff item item)
has_host_complete {item} (there {y = y} h) = ground (arith, has_host_complete h)

-- Some item of `no_proxy`, trimmed and in upper case, is one of the hosts, and is not empty.
abbrev pub Matched : List Text → List Text → Type 0
Matched hosts items =
    (item : Text) × Lists item items
    × (to_upper (trim item) ≢ [])
    × Lists (to_upper (trim item)) hosts

any_host_sound : (hosts items : List Text) → any_host hosts items ≡ true → Matched hosts items
unfolding any_host
any_host_sound hosts [] h = cc
any_host_sound hosts (item ∷ items) h = elim (Bool-cases (is_empty (to_upper (trim item)))) [
  | inl blank ↦ later (any_host_sound hosts items (rw blank at h))
  | inr full ↦ elim (Bool-cases (has_host (to_upper (trim item)) hosts)) [
    | inl found ↦ (
      item,
      here,
      (λ e. cc (full, (is_empty_iff (to_upper (trim item))).1 e)),
      has_host_sound (to_upper (trim item)) hosts found,
    )
    | inr missed ↦ later (any_host_sound hosts items (rw (full, missed) at h))
  ]
]
  where
    later : Matched hosts items → Matched hosts (item ∷ items)
    later (i, listed, full, host) = (i, there listed, full, host)

any_host_complete :
    (hosts : List Text) {item : Text} {items : List Text}
    → Lists item items
    → to_upper (trim item) ≢ []
    → Lists (to_upper (trim item)) hosts
    → any_host hosts items ≡ true
unfolding any_host
any_host_complete hosts {item = item} here full host =
    rw (is_empty-eq-false (to_upper (trim item)) full, has_host_complete host)
any_host_complete hosts (there {y = y} listed) full host =
    rw (any_host_complete hosts listed full host) (ground arith)

-- The value of `no_proxy`, or of `NO_PROXY` where that is unset or empty.
abbrev pub no_proxy : Process → Text
no_proxy p = or_text (env_text (codes "no_proxy") p) (env_text (codes "NO_PROXY") p)

-- A request goes round the proxy exactly when it has a host, `no_proxy` is set, and some item of
-- it that is not blank is, up to case and white space around it, the host or the host with its
-- port.
pub check_bypass_iff :
    (p : Process) (u : Url)
    → (check_bypass p u ≡ true)
      ↔ ((u.hostname ≢ []) × (no_proxy p ≢ []) × Matched (upper_hosts u) (split b',' (no_proxy p)))
unfolding check_bypass
check_bypass_iff p u = (sound, complete)
  where
    sound :
        check_bypass p u ≡ true
        → (u.hostname ≢ []) × (no_proxy p ≢ []) × Matched (upper_hosts u) (split b',' (no_proxy p))
    sound h = elim (Bool-cases (is_empty u.hostname)) [
      | inl bare ↦ cc (rw bare at h)
      | inr host ↦ elim (Bool-cases (is_empty (no_proxy p))) [
        | inl unset ↦ cc (rw (host, unset) at h)
        | inr set ↦ (
          (λ e. cc (host, (is_empty_iff u.hostname).1 e)),
          (λ e. cc (set, (is_empty_iff (no_proxy p)).1 e)),
          any_host_sound (upper_hosts u) (split b',' (no_proxy p)) (rw (host, set) at h),
        )
      ]
    ]

    complete :
        ((u.hostname ≢ []) × (no_proxy p ≢ []) × Matched (upper_hosts u) (split b',' (no_proxy p)))
        → check_bypass p u ≡ true
    complete (host, set, (item, listed, full, same)) =
        rw (is_empty-eq-false u.hostname host, is_empty-eq-false (no_proxy p) set)
          (any_host_complete (upper_hosts u) listed full same)
