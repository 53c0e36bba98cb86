-- ===== src/Axios/Validator.antt =====
-- isOlderVersion and assertOptions of axios' validator (.github/actions/propose/dist/index.js), for
-- options that are an object.
use forta_node_tr.Prelude.{
  ℕ, zero, suc, Text, List, [], ◌∷◌, ◌++◌, Bool, true, false, ◌&&◌, ◌||◌, Option, none, some, codes,
  split, ltb, ◌==◌, if◌then◌else◌, Result, ok, err, ◌≡◌, refl, sym, ap, ◌∙◌, Bool-cases,
  result_cases, inl, inr, arith,
}
use forta_node_tr.Js.{Value, Fields, lookup_field, Thrown, error}
use forta_node_tr.Axios.Config.{keys, is_undefined}

-- `a < b` of two strings.
unfoldable pub text_lt : Text → Text → Bool
text_lt [] [] = false
text_lt [] (y ∷ b) = true
text_lt (x ∷ a) [] = false
text_lt (x ∷ a) (y ∷ b) =
    let rest = text_lt a b in if ltb x y then true else if x == y then rest else false

-- The loop over the parts; a part that is missing compares as neither less nor greater.
unfoldable pub older_parts : ℕ → List Text → List Text → Bool
older_parts zero than dest = false
older_parts (suc k) [] dest = false
older_parts (suc k) (t ∷ than) [] = false
older_parts (suc k) (t ∷ than) (d ∷ dest) =
    let rest = older_parts k than dest in
    if text_lt d t then true else if text_lt t d then false else rest

-- `thanVersion` is given, or is the package's version.
unfoldable pub is_older_version : Text → Text → Bool
is_older_version version than = older_parts 3 (split b'.' than) (split b'.' version)

-- A validator of the schema accepts a value or says what it must be.
abbrev pub Schema : Type 0
Schema = Text → Option (Value → Option Text)

must_be : Text → Text → Thrown
must_be opt what = error (codes "TypeError") (codes "option " ++ opt ++ codes " must be " ++ what)

-- What a validator said of a value.
verdict : Text → Option Text → Result Thrown (Unit {0})
unfolding must_be
verdict opt none = ok tt
verdict opt (some what) = err (must_be opt what)

-- The checks of one option.
check_option : Text → Value → Bool → Option (Value → Option Text) → Result Thrown (Unit {0})
check_option opt v true none = ok tt
check_option opt v false none = err (error (codes "Error") (codes "Unknown option " ++ opt))
check_option opt v allow_unknown (some validator) =
    if is_undefined v then ok tt else verdict opt (validator v)

assert_option : Fields → Schema → Bool → Text → Result Thrown (Unit {0})
assert_option options schema allow_unknown opt =
    check_option opt (lookup_field opt options) allow_unknown (schema opt)

-- The loop runs from the last key to the first.
assert_keys : Fields → Schema → Bool → List Text → Result Thrown (Unit {0})
assert_keys options schema allow_unknown [] = ok tt
assert_keys options schema allow_unknown (k ∷ ks) =
    elim (assert_keys options schema allow_unknown ks) [
      | err e ↦ err e
      | ok u ↦ assert_option options schema allow_unknown k
    ]

pub assert_options : Fields → Schema → Bool → Result Thrown (Unit {0})
assert_options options schema allow_unknown =
    assert_keys options schema allow_unknown (keys options)

text_lt-asym : (a b : Text) → text_lt a b ≡ true → text_lt b a ≡ false
unfolding text_lt
text_lt-asym [] [] h = ground arith
text_lt-asym [] (y ∷ b) h = refl
text_lt-asym (x ∷ a) [] h = ground arith
text_lt-asym (x ∷ a) (y ∷ b) h = ground (arith, text_lt-asym a b)

older_parts-asym : (k : ℕ) (a b : List Text) → older_parts k a b ≡ true → older_parts k b a ≡ false
unfolding older_parts
older_parts-asym zero a b h = refl
older_parts-asym (suc k) [] b h = ground arith
older_parts-asym (suc k) (t ∷ a) [] h = ground arith
older_parts-asym (suc k) (t ∷ a) (d ∷ b) h =
    ground (arith, older_parts-asym k a b, text_lt-asym t d, text_lt-asym d t)

-- Of two versions, at most one is older than the other.
is_older_version_asymmetric :
    (version than : Text)
    → is_older_version version than ≡ true
    → is_older_version than version ≡ false
unfolding is_older_version
is_older_version_asymmetric version than h =
    older_parts-asym 3 (split b'.' than) (split b'.' version) h

abbrev no_complaint : Option Text → Bool
no_complaint none = true
no_complaint (some what) = false

-- A value that may stand for an option: any if the option is unknown and that is allowed, and
-- otherwise undefined or one that the validator of the schema has no complaint about.
pub acceptable : Value → Bool → Option (Value → Option Text) → Bool
acceptable v allow_unknown none = allow_unknown
acceptable v allow_unknown (some validator) = is_undefined v || no_complaint (validator v)

abbrev pub is_ok : Result Thrown (Unit {0}) → Bool
is_ok (ok u) = true
is_ok (err e) = false

abbrev pub every : (Text → Bool) → List Text → Bool
every f [] = true
every f (k ∷ ks) = f k && every f ks

verdict_lem : (opt : Text) (o : Option Text) → is_ok (verdict opt o) ≡ no_complaint o
unfolding verdict
verdict_lem opt none = refl
verdict_lem opt (some what) = refl

check_option_lem :
    (opt : Text) (v : Value) (allow_unknown : Bool) (o : Option (Value → Option Text))
    → is_ok (check_option opt v allow_unknown o) ≡ acceptable v allow_unknown o
unfolding check_option acceptable
check_option_lem opt v true none = refl
check_option_lem opt v false none = refl
check_option_lem opt v true (some f) = elim (Bool-cases (is_undefined v)) [
  | inl h ↦ rw h refl
  | inr h ↦ rw h (verdict_lem opt (f v))
]
check_option_lem opt v false (some f) = elim (Bool-cases (is_undefined v)) [
  | inl h ↦ rw h refl
  | inr h ↦ rw h (verdict_lem opt (f v))
]

and_true : (a b : Bool) → b ≡ true → a ≡ (a && b)
and_true a b h = ground arith

and_false : (a b : Bool) → b ≡ false → false ≡ (a && b)
and_false a b h = ground arith

module _ (options : Fields) (schema : Schema) (allow_unknown : Bool) where
  assert_keys_lem :
      (ks : List Text)
      → is_ok (assert_keys options schema allow_unknown ks)
        ≡ every (λ k. acceptable (lookup_field k options) allow_unknown (schema k)) ks
  unfolding assert_keys assert_option
  assert_keys_lem [] = refl
  assert_keys_lem (k ∷ ks) = elim (result_cases (assert_keys options schema allow_unknown ks)) [
    | inl (u, h) ↦
        rw (h, is_ok)
          (check_option_lem k (lookup_field k options) allow_unknown (schema k)
            ∙ and_true _ _ (sym (assert_keys_lem ks) ∙ ap is_ok h))
    | inr (e, h) ↦ rw (h, is_ok) (and_false _ _ (sym (assert_keys_lem ks) ∙ ap is_ok h))
  ]

  -- Options pass exactly when each of them is acceptable.
  pub assert_options-is_ok :
      is_ok (assert_options options schema allow_unknown)
      ≡ every (λ k. acceptable (lookup_field k options) allow_unknown (schema k)) (keys options)
  unfolding assert_options
  assert_options-is_ok = assert_keys_lem (keys options)
