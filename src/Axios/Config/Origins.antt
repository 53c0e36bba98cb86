-- ===== src/Axios/Config/Origins.antt =====
-- Where the properties of a merged configuration of axios come from
-- (.github/actions/propose/dist/index.js).
use forta_node_tr.Prelude.{
  Text, List, [], ◌∷◌, ◌++◌, true, false, not, ◌&&◌, ◌||◌, codes, text_eq, text_eq_iff,
  if◌then◌else◌, ◌≡◌, refl, sym, ap, ◌∙◌, Bool-cases, inl, inr, arith, true≢false,
}
use forta_node_tr.Js.{
  Value, Fields, undefined, null, bool, num, str, arr, obj, end, field, lookup_field, set_field,
}
use forta_node_tr.Axios.Config.{
  is_undefined, value_keys, deep_keys, default_keys, direct_keys, has_key, has_field, keys, without,
  set_defined, value_from_config2, deep_value, default_to_config2, set_each, set_direct, axios_keys,
  other_keys, merge_config,
}

lookup_field-set_field :
    (k j : Text) (v : Value) (o : Fields)
    → lookup_field j (set_field k v o) ≡ (if text_eq k j then v else lookup_field j o)
unfolding lookup_field set_field
lookup_field-set_field k j v end = refl
lookup_field-set_field k j v (field i w o) =
    ground
      (arith, text_eq_iff k j, text_eq_iff i k, text_eq_iff i j, lookup_field-set_field k j v o)

is_undefined-eq : (v : Value) → is_undefined v ≡ true → v ≡ undefined
is_undefined-eq undefined h = refl
is_undefined-eq null h = absurd (true≢false (sym h))
is_undefined-eq (bool b) h = absurd (true≢false (sym h))
is_undefined-eq (num n) h = absurd (true≢false (sym h))
is_undefined-eq (str t) h = absurd (true≢false (sym h))
is_undefined-eq (arr l) h = absurd (true≢false (sym h))
is_undefined-eq (obj o) h = absurd (true≢false (sym h))

lookup_field-set_defined :
    (k j : Text) (v : Value) (o : Fields)
    → lookup_field j (set_defined k v o)
      ≡ (if text_eq k j && not (is_undefined v) then v else lookup_field j o)
unfolding set_defined
lookup_field-set_defined k j v o = elim (Bool-cases (is_undefined v)) [
  | inl h ↦ rw h (ground arith)
  | inr h ↦ rw h (ground (arith, lookup_field-set_field k j v o))
]

lookup_field-set_each :
    (f : Text → Value) (j : Text) (ks : List Text) (o : Fields)
    → lookup_field j (set_each f ks o)
      ≡ (if has_key j ks && not (is_undefined (f j)) then f j else lookup_field j o)
unfolding set_each has_key
lookup_field-set_each f j [] o = refl
lookup_field-set_each f j (k ∷ ks) o = elim (Bool-cases (text_eq k j)) [
  | inl h ↦
      let same : k ≡ j = (text_eq_iff k j).0 h in
      ground (
        arith,
        lookup_field-set_each f j ks (set_defined k (f k) o),
        lookup_field-set_defined k j (f k) o,
        h,
        same,
        ap f same,
      )
  | inr h ↦ ground (
    arith,
    lookup_field-set_each f j ks (set_defined k (f k) o),
    lookup_field-set_defined k j (f k) o,
    h,
  )
]

set_each-other :
    (f : Text → Value) (j : Text) (ks : List Text) (o : Fields)
    → has_key j ks ≡ false
    → lookup_field j (set_each f ks o) ≡ lookup_field j o
set_each-other f j ks o h = lookup_field-set_each f j ks o ∙ rw h refl

set_direct-other :
    (c1 c2 : Fields) (j : Text) (ks : List Text) (o : Fields)
    → has_key j ks ≡ false
    → lookup_field j (set_direct c1 c2 ks o) ≡ lookup_field j o
unfolding set_direct has_key
set_direct-other c1 c2 j [] o h = refl
set_direct-other c1 c2 j (k ∷ ks) o h = elim (Bool-cases (text_eq k j)) [
  | inl e ↦ absurd (true≢false (sym (ap (λ b. b || has_key j ks) e) ∙ h))
  | inr e ↦
      let rest = sym (ap (λ b. b || has_key j ks) e) ∙ h in
      elim (Bool-cases (has_field k c2)) [
        | inl a ↦
            rw a (set_direct-other c1 c2 j ks _ rest ∙ lookup_field-set_field k j _ o ∙ rw e refl)
        | inr a ↦ elim (Bool-cases (has_field k c1)) [
          | inl b ↦
              rw (a, b)
                (set_direct-other c1 c2 j ks _ rest ∙ lookup_field-set_field k j _ o ∙ rw e refl)
          | inr b ↦ rw (a, b) (set_direct-other c1 c2 j ks o rest)
        ]
      ]
]

has_key-without :
    (j : Text) (known ks : List Text)
    → has_key j known ≡ true
    → has_key j (without known ks) ≡ false
unfolding has_key without
has_key-without j known [] h = refl
has_key-without j known (k ∷ ks) h = elim (Bool-cases (has_key k known)) [
  | inl e ↦ rw e (has_key-without j known ks h)
  | inr e ↦ elim (Bool-cases (text_eq k j)) [
    | inl t ↦
        absurd (true≢false (sym h ∙ sym (ap (λ x. has_key x known) ((text_eq_iff k j).0 t)) ∙ e))
    | inr t ↦ rw (e, t) (has_key-without j known ks h)
  ]
]

own_value :
    (c1 c2 : Fields) (j : Text)
    → has_key j value_keys ≡ true
    → (if has_key j value_keys && not (is_undefined (value_from_config2 c1 c2 j))
        then value_from_config2 c1 c2 j
        else lookup_field j end)
      ≡ lookup_field j c2
unfolding value_from_config2 lookup_field
own_value c1 c2 j own = elim (Bool-cases (is_undefined (lookup_field j c2))) [
  | inl u ↦ rw (own, u) (sym (is_undefined-eq (lookup_field j c2) u))
  | inr u ↦ rw (own, u) refl
]

value_key_lem :
    (c1 c2 : Fields) (j : Text)
    → has_key j axios_keys ≡ true
    → has_key j direct_keys ≡ false
    → has_key j default_keys ≡ false
    → has_key j deep_keys ≡ false
    → has_key j value_keys ≡ true
    → lookup_field j (merge_config c1 c2) ≡ lookup_field j c2
unfolding merge_config other_keys
value_key_lem c1 c2 j known direct defaults deep own =
    set_each-other (deep_value c1 c2) j (other_keys c1 c2) _
      (has_key-without j axios_keys (keys c1 ++ keys c2) known)
    ∙ set_direct-other c1 c2 j direct_keys _ direct
    ∙ set_each-other (default_to_config2 c1 c2) j default_keys _ defaults
    ∙ set_each-other (deep_value c1 c2) j deep_keys _ deep
    ∙ lookup_field-set_each (value_from_config2 c1 c2) j value_keys end
    ∙ own_value c1 c2 j own

-- The url, the method and the data of a request are those of its own configuration, never those of
-- the defaults, also where its own leaves them out.
merge_config-request :
    (c1 c2 : Fields)
    → (lookup_field (codes "url") (merge_config c1 c2) ≡ lookup_field (codes "url") c2)
      × (lookup_field (codes "method") (merge_config c1 c2) ≡ lookup_field (codes "method") c2)
      × (lookup_field (codes "data") (merge_config c1 c2) ≡ lookup_field (codes "data") c2)
unfolding has_key axios_keys direct_keys default_keys deep_keys value_keys text_eq
merge_config-request c1 c2 = (
  value_key_lem c1 c2 (codes "url") refl refl refl refl refl,
  value_key_lem c1 c2 (codes "method") refl refl refl refl refl,
  value_key_lem c1 c2 (codes "data") refl refl refl refl refl,
)
