-- ===== src/Axios/Query.antt =====
-- buildURL of axios (.github/actions/propose/dist/index.js), without a serializer of the caller's.
-- A parameter is missing (undefined or null), a value or a list of values; values stand as the
-- texts that they are encoded as.
use forta_node_tr.Prelude.{
  ℕ, zero, suc, Text, List, [], ◌∷◌, ◌++◌, Bool, true, false, ◌&&◌, ◌||◌, Option, none, some, codes,
  is_empty, ◌==◌, ==_iff, if◌then◌else◌, join, join_behind, All, All-append, Lacks, ◌≡◌, ◌≢◌, refl,
  sym, ◌∙◌, Bool-cases, Option-cases, inl, inr, true≢false, arith, ◌⊎◌,
}
use forta_node_tr.Http.Encoding.{encode_uri_component, encode_uri_component-Lacks}

-- What `encode` puts back for `%` and two digits.
readable : ℕ → ℕ → Option ℕ
readable a b =
    if a == b'3' && (b == b'A' || b == b'a')
    then some b':'
    else if a == b'2' && b == b'4'
    then some b'$'
    else if a == b'2' && (b == b'C' || b == b'c')
    then some b','
    else if a == b'2' && b == b'0'
    then some b'+'
    else if a == b'5' && (b == b'B' || b == b'b')
    then some b'['
    else if a == b'5' && (b == b'D' || b == b'd')
    then some b']'
    else none

-- The unit to write for one that was read, with those behind it, and how many to pass over.
read_unit : ℕ → Text → ℕ × ℕ
read_unit c (a ∷ b ∷ s) =
    if c == b'%' then elim (readable a b) [ none ↦ (c, 0) | some d ↦ (d, 2) ] else (c, 0)
read_unit c s = (c, 0)

-- The `replace` calls of `encode`, in one pass; the first argument is how many units to pass over.
replace_codes : ℕ → Text → Text
replace_codes skip [] = []
replace_codes (suc k) (c ∷ s) = replace_codes k s
replace_codes zero (c ∷ s) = (read_unit c s).0 ∷ replace_codes (read_unit c s).1 s

encode_value : Text → Text
encode_value t = replace_codes 0 (encode_uri_component t)

pub data Param : Type 0 where
  missing : Param
  single : Text → Param
  many : List Text → Param

pairs : Text → List Text → List Text
pairs key [] = []
pairs key (v ∷ vs) = (encode_value key ++ codes "=" ++ encode_value v) ∷ pairs key vs

param_parts : Text → Param → List Text
param_parts key missing = []
param_parts key (single v) = pairs key (v ∷ [])
param_parts key (many vs) = pairs (key ++ codes "[]") vs

pub all_parts : List (Text × Param) → List Text
all_parts [] = []
all_parts ((key, p) ∷ ps) = param_parts key p ++ all_parts ps

-- `url.slice(0, url.indexOf('#'))`
before_fragment : Text → Text
before_fragment [] = []
before_fragment (c ∷ url) = let rest = before_fragment url in if c == b'#' then [] else c ∷ rest

has_query : Text → Bool
has_query [] = false
has_query (c ∷ url) = c == b'?' || has_query url

append_query : Text → Text → Text
append_query url serialized =
    if is_empty serialized
    then url
    else before_fragment url
      ++ (if has_query (before_fragment url) then codes "&" else codes "?")
      ++ serialized

pub build_url : Text → List (Text × Param) → Text
build_url url params = append_query url (join (codes "&") (all_parts params))

readable_lem : (a b d : ℕ) → readable a b ≡ some d → d ≢ b'#'
unfolding readable
readable_lem a b d h = ground arith

read_unit_lem : (c : ℕ) (s : Text) → c ≢ b'#' → (read_unit c s).0 ≢ b'#'
unfolding read_unit
read_unit_lem c [] h = h
read_unit_lem c (a ∷ []) h = h
read_unit_lem c (a ∷ b ∷ s) h = elim (Bool-cases (c == b'%')) [
  | inr e ↦ rw e h
  | inl e ↦ elim (Option-cases (readable a b)) [
    | inl g ↦ rw (e, g) h
    | inr (d, g) ↦ rw (e, g) (readable_lem a b d g)
  ]
]

replace_codes_lem : (k : ℕ) (s : Text) → Lacks b'#' s → Lacks b'#' (replace_codes k s)
unfolding replace_codes
replace_codes_lem k [] h = tt
replace_codes_lem (suc k) (c ∷ s) h = replace_codes_lem k s h.1
replace_codes_lem zero (c ∷ s) h =
    (read_unit_lem c s h.0, replace_codes_lem (read_unit c s).1 s h.1)

encode_value_lem : (t : Text) → Lacks b'#' (encode_value t)
unfolding encode_value
encode_value_lem t = replace_codes_lem 0 (encode_uri_component t) (encode_uri_component-Lacks t)

both : (a b : Text) → Lacks b'#' a → Lacks b'#' b → Lacks b'#' (a ++ b)
both a b = All-append (λ x. x ≢ b'#') a b

pairs_lem : (key : Text) (vs : List Text) → All (Lacks b'#') (pairs key vs)
unfolding pairs
pairs_lem key [] = tt
pairs_lem key (v ∷ vs) = (
  both (encode_value key ++ codes "=") (encode_value v)
      (both (encode_value key) (codes "=") (encode_value_lem key) ((λ e. omega arith), tt))
      (encode_value_lem v),
  pairs_lem key vs,
)

all_parts_lem : (ps : List (Text × Param)) → All (Lacks b'#') (all_parts ps)
unfolding all_parts param_parts
all_parts_lem [] = tt
all_parts_lem ((key, missing) ∷ ps) = all_parts_lem ps
all_parts_lem ((key, single v) ∷ ps) =
    All-append (Lacks b'#') (pairs key (v ∷ [])) (all_parts ps) (pairs_lem key (v ∷ []))
      (all_parts_lem ps)
all_parts_lem ((key, many vs) ∷ ps) =
    All-append (Lacks b'#') (pairs (key ++ codes "[]") vs) (all_parts ps)
      (pairs_lem (key ++ codes "[]") vs) (all_parts_lem ps)

join_behind_lem : (l : List Text) → All (Lacks b'#') l → Lacks b'#' (join_behind (codes "&") l)
unfolding join_behind
join_behind_lem [] h = tt
join_behind_lem (t ∷ l) (p, h) =
    both (codes "&" ++ t) (join_behind (codes "&") l)
      (both (codes "&") t ((λ e. omega arith), tt) p) (join_behind_lem l h)

join_lem : (l : List Text) → All (Lacks b'#') l → Lacks b'#' (join (codes "&") l)
unfolding join
join_lem [] h = tt
join_lem (t ∷ l) (p, h) = both t (join_behind (codes "&") l) p (join_behind_lem l h)

before_fragment_lem : (url : Text) → Lacks b'#' (before_fragment url)
unfolding before_fragment
before_fragment_lem [] = tt
before_fragment_lem (c ∷ url) = elim (Bool-cases (c == b'#')) [
  | inl e ↦ rw e tt
  | inr e ↦ rw e ((λ q. true≢false (sym ((==_iff c b'#').1 q) ∙ e)), before_fragment_lem url)
]

separator_lem : (b : Bool) → Lacks b'#' (if b then codes "&" else codes "?")
separator_lem true = ((λ e. omega arith), tt)
separator_lem false = ((λ e. omega arith), tt)

-- A url to which parameters are added has no fragment left, and no parameter brings one in,
-- whatever its name and its values; a url to which nothing is added stays as it is.
pub build_url_fragment :
    (url : Text) (params : List (Text × Param))
    → ((is_empty (join (codes "&") (all_parts params)) ≡ true) × (build_url url params ≡ url))
      ⊎ Lacks b'#' (build_url url params)
unfolding build_url append_query
build_url_fragment url params = elim (Bool-cases (is_empty (join (codes "&") (all_parts params)))) [
  | inl e ↦ inl (e, rw e refl)
  | inr e ↦ inr (
      rw e (
        both
          (before_fragment url
            ++ (if has_query (before_fragment url) then codes "&" else codes "?"))
          (join (codes "&") (all_parts params))
          (both (before_fragment url)
            (if has_query (before_fragment url) then codes "&" else codes "?")
            (before_fragment_lem url) (separator_lem (has_query (before_fragment url))))
          (join_lem (all_parts params) (all_parts_lem params))))
]
