-- ===== src/Http/Handlers.antt =====
-- The credential handlers of the toolkit's auth.js (.github/actions/propose/dist/index.js).
use forta_node_tr.Prelude.{Text, Dict, ◌++◌, Bool, false, codes, insert}
use forta_node_tr.Http.Encoding.{base64}

pub data Handler : Type 0 where
  basic : Text → Text → Handler
  bearer : Text → Handler
  personal_access_token : Text → Handler

-- What a handler puts under `Authorization`.
unfoldable pub credential : Handler → Text
credential (basic username password) = codes "Basic " ++ base64 (username ++ codes ":" ++ password)
credential (bearer token) = codes "Bearer " ++ token
credential (personal_access_token token) = codes "Basic " ++ base64 (codes "PAT:" ++ token)

-- `prepareRequest`, on the headers of the request's options.
unfoldable pub prepare_headers : Handler → Dict Text → Dict Text
prepare_headers h headers = insert (codes "Authorization") (credential h) headers

-- `canHandleAuthentication`: no handler can handle a 401.
unfoldable pub can_handle_authentication : Handler → Bool
can_handle_authentication (basic username password) = false
can_handle_authentication (bearer token) = false
can_handle_authentication (personal_access_token token) = false
