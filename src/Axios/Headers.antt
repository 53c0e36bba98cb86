-- ===== src/Axios/Headers.antt =====
-- normalizeHeaderName of axios (.github/actions/propose/dist/index.js).
use forta_node_tr.Prelude.{
  Text, Dict, List, [], ◌∷◌, Bool, true, false, not, ◌&&◌, ◌||◌, Option, none, some, text_eq,
  to_upper, lookup, insert, erase,
}

-- A name that differs from the normalized one in case only.
abbrev pub is_variant : Text → Text → Bool
is_variant normalized name =
    not (text_eq name normalized) && text_eq (to_upper name) (to_upper normalized)

-- The body of `processHeader`, by the outcome of its test and the value of the header.
pub moved : Bool → Option Text → Text → Text → Dict Text → Dict Text
moved false value normalized name headers = headers
moved true none normalized name headers = headers
moved true (some value) normalized name headers = erase name (insert normalized value headers)

-- `processHeader`
process_header : Text → Text → Dict Text → Dict Text
process_header normalized name headers =
    moved (is_variant normalized name) (lookup name headers) normalized name headers

process_each : Text → List Text → Dict Text → Dict Text
process_each normalized [] headers = headers
process_each normalized (name ∷ names) headers =
    process_each normalized names (process_header normalized name headers)

pub names : Dict Text → List Text
names [] = []
names ((k, v) ∷ d) = k ∷ names d

pub normalize_header_name : Dict Text → Text → Dict Text
normalize_header_name headers normalized = process_each normalized (names headers) headers

pub listed : Text → List Text → Bool
listed k [] = false
listed k (j ∷ js) = text_eq j k || listed k js
