-- ===== src/Axios/Paths.antt =====
-- buildFullPath, combineURLs and isAbsoluteURL of axios (.github/actions/propose/dist/index.js).
use forta_node_tr.Prelude.{
  ℕ, Text, [], ◌∷◌, ◌++◌, Bool, false, ◌&&◌, ◌||◌, codes, is_empty, leb, ◌==◌, if◌then◌else◌, ◌≡◌,
  refl, ap,
}

is_letter : ℕ → Bool
is_letter c = leb b'a' c && leb c b'z' || leb b'A' c && leb c b'Z'

is_scheme_unit : ℕ → Bool
unfolding is_letter
is_scheme_unit c = is_letter c || leb b'0' c && leb c b'9' || c == b'+' || c == b'-' || c == b'.'

starts_with_slashes : Text → Bool
starts_with_slashes (a ∷ b ∷ s) = a == b'/' && b == b'/'
starts_with_slashes s = false

-- After the first letter of a scheme.
after_letter : Text → Bool
unfolding is_scheme_unit starts_with_slashes
after_letter [] = false
after_letter (c ∷ s) =
    let rest = after_letter s in
    if c == b':' then starts_with_slashes s else if is_scheme_unit c then rest else false

has_scheme : Text → Bool
unfolding after_letter
has_scheme [] = false
has_scheme (c ∷ s) = is_letter c && after_letter s

-- `/^([a-z][a-z\d\+\-\.]*:)?\/\//i.test(url)`
unfoldable pub is_absolute_url : Text → Bool
unfolding has_scheme
is_absolute_url url = starts_with_slashes url || has_scheme url

-- `replace(/^\/+/, '')`
strip_leading : Text → Text
strip_leading [] = []
strip_leading (c ∷ s) = let rest = strip_leading s in if c == b'/' then rest else c ∷ s

-- `replace(/\/+$/, '')`
strip_trailing : Text → Text
strip_trailing [] = []
strip_trailing (c ∷ s) =
    let rest = strip_trailing s in if c == b'/' && is_empty rest then [] else c ∷ rest

combine_urls : Text → Text → Text
combine_urls base relative =
    if is_empty relative then base else strip_trailing base ++ codes "/" ++ strip_leading relative

build_full_path : Text → Text → Text
build_full_path base requested =
    if is_empty base
    then requested
    else if is_absolute_url requested
    then requested
    else combine_urls base requested

strip_trailing-slash : (base : Text) → strip_trailing (base ++ codes "/") ≡ strip_trailing base
unfolding strip_trailing
strip_trailing-slash [] = refl
strip_trailing-slash (c ∷ s) =
    ap (λ rest. if c == b'/' && is_empty rest then [] else c ∷ rest) (strip_trailing-slash s)

-- The parts of a combined url are joined by one slash, whether the base ends with slashes and the
-- relative part starts with them or not.
combine_urls-slash :
    (base relative : Text) (c : ℕ)
    → (combine_urls (base ++ codes "/") (c ∷ relative) ≡ combine_urls base (c ∷ relative))
      × (combine_urls base (b'/' ∷ c ∷ relative) ≡ combine_urls base (c ∷ relative))
unfolding combine_urls strip_leading
combine_urls-slash base relative c =
    (ap (λ t. t ++ codes "/" ++ strip_leading (c ∷ relative)) (strip_trailing-slash base), refl)
