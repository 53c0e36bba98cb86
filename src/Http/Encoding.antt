-- ===== src/Http/Encoding.antt =====
-- encodeURIComponent, which throws on half of a surrogate pair,
-- `Buffer.from(s).toString('base64')` and `Buffer.byteLength(s, 'utf8')`: the UTF-8 bytes of a
-- string, in which half of a surrogate pair on its own is U+FFFD.
use forta_node_tr.Prelude.{
  ℕ, ◌+◌, ◌-◌, ◌*◌, ◌/◌, ◌%◌, Text, List, [], ◌∷◌, ◌++◌, Bool, true, false, ◌&&◌, ◌||◌, codes, ltb,
  leb, ◌==◌, if◌then◌else◌, length, ◌≡◌, ◌≢◌, refl, sym, ap, ◌∙◌, All-append, Lacks, Bool-cases,
  inl, inr, true≢false, arith,
}

utf8_of : ℕ → List ℕ
utf8_of c =
    if ltb c 0x80
    then c ∷ []
    else if ltb c 0x800
    then (0xc0 + c / 64) ∷ (0x80 + c % 64) ∷ []
    else if ltb c 0x10000
    then (0xe0 + c / 4096) ∷ (0x80 + c / 64 % 64) ∷ (0x80 + c % 64) ∷ []
    else (0xf0 + c / 262144) ∷ (0x80 + c / 4096 % 64) ∷ (0x80 + c / 64 % 64) ∷ (0x80 + c % 64) ∷ []

is_high : ℕ → Bool
is_high c = leb 0xd800 c && leb c 0xdbff

is_low : ℕ → Bool
is_low c = leb 0xdc00 c && leb c 0xdfff

-- One unit on its own.
lone : ℕ → List ℕ
unfolding utf8_of is_high is_low
lone c = if is_high c then utf8_of 0xfffd else if is_low c then utf8_of 0xfffd else utf8_of c

-- The first argument says that the unit before and this one are a pair, whose bytes were written.
utf8_from : Bool → Text → List ℕ
unfolding lone
utf8_from paired [] = []
utf8_from true (c ∷ s) = utf8_from false s
utf8_from false (c ∷ []) = lone c
utf8_from false (c ∷ d ∷ s) =
    let pair = is_high c && is_low d in
    (if pair then utf8_of (0x10000 + (c - 0xd800) * 1024 + (d - 0xdc00)) else lone c)
    ++ utf8_from pair (d ∷ s)

utf8 : Text → List ℕ
unfolding utf8_from
utf8 s = utf8_from false s

pub byte_length : Text → ℕ
unfolding utf8
byte_length s = length (utf8 s)

digit : ℕ → ℕ
digit d =
    if ltb d 26
    then b'A' + d
    else if ltb d 52
    then b'a' + (d - 26)
    else if ltb d 62
    then b'0' + (d - 52)
    else if d == 62
    then b'+'
    else b'/'

base64_bytes : List ℕ → Text
unfolding digit
base64_bytes [] = []
base64_bytes (a ∷ []) = digit (a / 4) ∷ digit (a % 4 * 16) ∷ b'=' ∷ b'=' ∷ []
base64_bytes (a ∷ b ∷ []) =
    digit (a / 4) ∷ digit (a % 4 * 16 + b / 16) ∷ digit (b % 16 * 4) ∷ b'=' ∷ []
base64_bytes (a ∷ b ∷ c ∷ l) =
    digit (a / 4)
    ∷ digit (a % 4 * 16 + b / 16)
    ∷ digit (b % 16 * 4 + c / 64)
    ∷ digit (c % 64)
    ∷ base64_bytes l

pub base64 : Text → Text
unfolding base64_bytes utf8
base64 s = base64_bytes (utf8 s)

base64_sample : base64 (codes "PAT:é") ≡ codes "UEFUOsOp"
unfolding base64
base64_sample = refl

is_unreserved : ℕ → Bool
is_unreserved c =
    leb b'a' c && leb c b'z'
    || leb b'A' c && leb c b'Z'
    || leb b'0' c && leb c b'9'
    || c == b'-'
    || c == b'_'
    || c == b'.'
    || c == b'!'
    || c == b'~'
    || c == b'*'
    || c == b'\''
    || c == b'('
    || c == b')'

upper_hex : ℕ → ℕ
upper_hex d = if ltb d 10 then b'0' + d else b'A' + (d - 10)

encode_byte : ℕ → Text
unfolding is_unreserved upper_hex
encode_byte c =
    if is_unreserved c then c ∷ [] else b'%' ∷ upper_hex (c / 16) ∷ upper_hex (c % 16) ∷ []

encode_bytes : List ℕ → Text
encode_bytes [] = []
encode_bytes (c ∷ s) = encode_byte c ++ encode_bytes s

pub encode_uri_component : Text → Text
unfolding encode_bytes
encode_uri_component t = encode_bytes (utf8 t)

encode_sample : encode_uri_component (codes "a b#é") ≡ codes "a%20b%23%C3%A9"
unfolding encode_uri_component encode_byte utf8
encode_sample = refl

not_number_sign : (d : ℕ) → (if ltb d 10 then b'0' + d else b'A' + (d - 10)) ≢ b'#'
not_number_sign d = ground arith

kept_unit : (c : ℕ) → is_unreserved c ≡ true → c ≢ b'#'
unfolding is_unreserved
kept_unit c h e = true≢false (sym h ∙ ap is_unreserved e)

encode_byte_lem : (c : ℕ) → Lacks b'#' (encode_byte c)
unfolding encode_byte
encode_byte_lem c = elim (Bool-cases (is_unreserved c)) [
  | inl h ↦ rw (h, encode_byte) (kept_unit c h, tt)
  | inr h ↦
      rw (h, encode_byte)
        ((λ e. omega arith), (not_number_sign (c / 16), (not_number_sign (c % 16), tt)))
]

encode_bytes_lem : (s : List ℕ) → Lacks b'#' (encode_bytes s)
unfolding encode_bytes
encode_bytes_lem [] = tt
encode_bytes_lem (c ∷ s) =
    All-append (λ x. x ≢ b'#') (encode_byte c) (encode_bytes s) (encode_byte_lem c)
      (encode_bytes_lem s)

pub encode_uri_component-Lacks : (t : Text) → Lacks b'#' (encode_uri_component t)
unfolding encode_uri_component
encode_uri_component-Lacks t = encode_bytes_lem (utf8 t)
