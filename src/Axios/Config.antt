-- ===== src/Axios/Config.antt =====
-- mergeConfig of axios and the deep merge that it uses, utils.merge
-- (.github/actions/propose/dist/index.js). Functions in a configuration stand as values that the
-- merge does not look into.
pub mod Origins
use forta_node_tr.Prelude.{
  Text, List, [], ◌∷◌, ◌++◌, Bool, true, false, not, ◌&&◌, ◌||◌, codes, text_eq, if◌then◌else◌,
}
use forta_node_tr.Js.{Value, Items, Fields, undefined, obj, end, field, lookup_field, set_field}

-- `utils.merge`: the fields of the second object over those of the first, plain objects deeply.
unfoldable mutual
  pub merge_fields : Fields → Fields → Fields
  merge_fields r end = r
  merge_fields r (field k v o) = merge_fields (set_field k (merge_value (lookup_field k r) v) r) o

  -- `getMergedValue(target, source)`
  merge_value : Value → Value → Value
  merge_value (obj a) (obj b) = obj (merge_fields a b)
  merge_value target source = source

abbrev pub is_undefined : Value → Bool
is_undefined undefined = true
is_undefined v = false

pub value_keys : List Text
value_keys = codes "url" ∷ codes "method" ∷ codes "data" ∷ []

pub deep_keys : List Text
deep_keys = codes "headers" ∷ codes "auth" ∷ codes "proxy" ∷ codes "params" ∷ []

pub default_keys : List Text
default_keys =
    codes "baseURL"
    ∷ codes "transformRequest"
    ∷ codes "transformResponse"
    ∷ codes "paramsSerializer"
    ∷ codes "timeout"
    ∷ codes "timeoutMessage"
    ∷ codes "withCredentials"
    ∷ codes "adapter"
    ∷ codes "responseType"
    ∷ codes "xsrfCookieName"
    ∷ codes "xsrfHeaderName"
    ∷ codes "onUploadProgress"
    ∷ codes "onDownloadProgress"
    ∷ codes "decompress"
    ∷ codes "maxContentLength"
    ∷ codes "maxBodyLength"
    ∷ codes "maxRedirects"
    ∷ codes "transport"
    ∷ codes "httpAgent"
    ∷ codes "httpsAgent"
    ∷ codes "cancelToken"
    ∷ codes "socketPath"
    ∷ codes "responseEncoding"
    ∷ []

pub direct_keys : List Text
direct_keys = codes "validateStatus" ∷ []

pub has_key : Text → List Text → Bool
has_key k [] = false
has_key k (j ∷ ks) = text_eq j k || has_key k ks

-- `k in o`
pub has_field : Text → Fields → Bool
has_field k end = false
has_field k (field j v o) = text_eq j k || has_field k o

unfoldable pub keys : Fields → List Text
keys end = []
keys (field k v o) = k ∷ keys o

unfoldable pub without : List Text → List Text → List Text
without known [] = []
without known (k ∷ ks) = if has_key k known then without known ks else k ∷ without known ks

-- A property is set unless its value is undefined.
pub set_defined : Text → Value → Fields → Fields
set_defined k v o = if is_undefined v then o else set_field k v o

-- What each class of keys takes from the two configurations.
pub value_from_config2 : Fields → Fields → Text → Value
value_from_config2 c1 c2 k = lookup_field k c2

pub deep_value : Fields → Fields → Text → Value
deep_value c1 c2 k =
    if is_undefined (lookup_field k c2)
    then lookup_field k c1
    else merge_value (lookup_field k c1) (lookup_field k c2)

pub default_to_config2 : Fields → Fields → Text → Value
default_to_config2 c1 c2 k =
    if is_undefined (lookup_field k c2) then lookup_field k c1 else lookup_field k c2

pub set_each : (Text → Value) → List Text → Fields → Fields
set_each f [] o = o
set_each f (k ∷ ks) o = set_each f ks (set_defined k (f k) o)

pub set_direct : Fields → Fields → List Text → Fields → Fields
set_direct c1 c2 [] o = o
set_direct c1 c2 (k ∷ ks) o = set_direct c1 c2 ks (
    if has_field k c2
    then set_field k (merge_value (lookup_field k c1) (lookup_field k c2)) o
    else if has_field k c1
    then set_field k (lookup_field k c1) o
    else o)

pub axios_keys : List Text
axios_keys = value_keys ++ deep_keys ++ default_keys ++ direct_keys

pub other_keys : Fields → Fields → List Text
other_keys c1 c2 = without axios_keys (keys c1 ++ keys c2)

pub merge_config : Fields → Fields → Fields
merge_config c1 c2 = set_each (deep_value c1 c2) (other_keys c1 c2) (
    set_direct c1 c2 direct_keys (
      set_each (default_to_config2 c1 c2) default_keys (
        set_each (deep_value c1 c2) deep_keys
          (set_each (value_from_config2 c1 c2) value_keys end))))
