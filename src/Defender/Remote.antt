-- ===== src/Defender/Remote.antt =====
-- What the client reaches over the network, and what it leaves behind. Signing in with Cognito and
-- carrying an HTTP request are code that is not modelled: they are the parameter `Remote`.
use forta_node_tr.Prelude.{Text, List, Option, Result}
use forta_node_tr.Js.{Value, Thrown}
use forta_node_tr.Actions.Process.{Process}

pub record Credentials : Type 0 where
  pub username : Text
  pub password : Text

pub record PoolData : Type 0 where
  pub user_pool_id : Text
  pub client_id : Text

-- The axios instance that `createApi` makes: its base address and its headers.
pub record Api : Type 0 where
  pub base_url : Text
  pub headers : List (Text × Text)

pub data Method : Type 0 where
  get put post : Method

pub record Request : Type 0 where
  pub api : Api
  pub verb : Method
  pub path : Text
  pub body : Value

pub record Response : Type 0 where
  pub status : Value
  pub status_text : Value
  pub body : Value

-- An axios error: the response, where one came; its message; `path` and `method` of the request
-- that was sent, where it got that far.
pub record Failure : Type 0 where
  pub response : Option Response
  pub message : Value
  pub request : Option (Value × Value)

-- An answer is a response with its body, or an error.
pub data Answer : Type 0 where
  accepted : Value → Answer
  failed : Failure → Answer

pub record Remote (S : Type 0) : Type 0 where
  pub authenticate : Credentials → PoolData → S → Result Thrown Text × S
  pub send : Request → S → Answer × S

-- What the client did over the network, in order.
pub data Event : Type 0 where
  signed_in : Credentials → PoolData → Event
  sent : Request → Event

-- The process, the state of the outside, the log of what was done there, and the calls of
-- `console.error`, each with its text and its error.
pub record World (S : Type 0) : Type 0 where
  pub process : Process
  pub outside : S
  pub log : List Event
  pub errors : List (Text × Thrown)
