-- ===== src/Axios/Dispatch.antt =====
-- dispatchRequest, settle, createError and transformData of axios
-- (.github/actions/propose/dist/index.js). The adapter, which carries a request, is an argument;
-- transforms do not throw,
-- and of an error its message and response are modelled.
pub mod Outcomes
use forta_node_tr.Prelude.{
  ℕ, Text, List, [], ◌∷◌, ◌++◌, Bool, true, false, Option, none, some, codes, text_eq, is_empty,
  ◌==◌, ◌||◌, if◌then◌else◌, Result, ok, err, Effect, ◌>>=◌,
}
use forta_node_tr.Js.{
  Value, Fields, undefined, null, obj, end, field, lookup_field, set_field, truthy, print_nat,
  Thrown, error,
}
use forta_node_tr.Axios.Config.{merge_fields}

pub record AxiosResponse : Type 0 where
  pub status : ℕ
  pub body : Value
  pub headers : Fields

-- An error with the response that it carries, or the `Cancel` of a token.
pub data Reason : Type 0 where
  failure : Text → Option AxiosResponse → Reason
  cancel : Text → Reason

-- A transform gives the data that follows and the headers, which it may change.
abbrev pub Transform : Type 0
Transform = Value → Fields → Value × Fields

-- `transformData`: each function on the result of the one before.
transform_data : List Transform → Value → Fields → Value × Fields
transform_data [] body headers = (body, headers)
transform_data (f ∷ fs) body headers =
    let (body', headers') = f body headers in transform_data fs body' headers'

pub record Config (S : Type 0) : Type 0 where
  pub method : Text
  pub body : Value
  pub headers : Fields
  pub transform_request : List Transform
  pub transform_response : List Transform

-- `cancelToken.reason`, which may be set while a request runs.
abbrev pub Token : Type 0 → Type 0
Token S = Option (S → Option Text)

-- `throwIfCancellationRequested`
unfoldable pub cancelled : {S : Type 0} → Token S → S → Option Text
cancelled none s = none
cancelled (some reason) s = reason s

fields_of : Value → Fields
fields_of (obj o) = o
fields_of v = end

-- `delete o[k]`
delete_field : Text → Fields → Fields
delete_field k end = end
delete_field k (field j v o) =
    if text_eq j k then delete_field k o else field j v (delete_field k o)

delete_fields : List Text → Fields → Fields
delete_fields [] o = o
delete_fields (k ∷ ks) o = delete_fields ks (delete_field k o)

method_groups : List Text
method_groups =
    codes "delete"
    ∷ codes "get"
    ∷ codes "head"
    ∷ codes "post"
    ∷ codes "put"
    ∷ codes "patch"
    ∷ codes "common"
    ∷ []

-- The common headers, those of the method and the request's own, without the groups.
flatten_headers : Text → Fields → Fields
unfolding fields_of
flatten_headers method headers = delete_fields method_groups (
    merge_fields
      (merge_fields (merge_fields end (fields_of (lookup_field (codes "common") headers)))
        (fields_of (lookup_field method headers)))
      headers)

-- `settle`: `validate` is the config's validateStatus, if it has one.
settle_response : Option (ℕ → Bool) → AxiosResponse → Result Reason AxiosResponse
settle_response validate r = if r.status == 0 then ok r else elim validate [
  | none ↦ ok r
  | some valid ↦
      if valid r.status
      then ok r
      else err (failure (codes "Request failed with status code " ++ print_nat r.status) (some r))
]

pub transformed : List Transform → AxiosResponse → AxiosResponse
transformed fs r =
    let (body, headers) = transform_data fs r.body r.headers in
    record r { body = body; headers = headers }

-- `onAdapterResolution` and `onAdapterRejection`
unfoldable pub after_adapter :
    {S : Type 0}
    → List Transform
    → Token S
    → Result Reason AxiosResponse × S
    → Result Reason AxiosResponse × S
after_adapter fs token (ok r, s) = elim (cancelled token s) [
  | some message ↦ (err (cancel message), s)
  | none ↦ (ok (transformed fs r), s)
]
after_adapter fs token (err (cancel message), s) = (err (cancel message), s)
after_adapter fs token (err (failure message response), s) = elim (cancelled token s) [
  | some m ↦ (err (cancel m), s)
  | none ↦ elim response [
    | none ↦ (err (failure message none), s)
    | some r ↦ (err (failure message (some (transformed fs r))), s)
  ]
]

-- The request that the adapter gets.
pub prepared_config : {S : Type 0} → Config S → Config S
prepared_config c =
    let (body, headers) = transform_data c.transform_request c.body c.headers in
    record c { body = body; headers = flatten_headers c.method headers }

unfoldable pub dispatch_request :
    {S : Type 0}
    → (Config S → Effect S Reason AxiosResponse)
    → Token S
    → Config S
    → Effect S Reason AxiosResponse
dispatch_request adapter token c s = elim (cancelled token s) [
  | some message ↦ (err (cancel message), s)
  | none ↦ after_adapter c.transform_response token (adapter (prepared_config c) s)
]
