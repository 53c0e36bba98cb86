-- ===== src/Http/Url.antt =====
-- What `new URL(text)` gives. Parsing a URL is the platform's; it is a parameter of what calls it.
use forta_node_tr.Prelude.{Text, Option}

pub record Url : Type 0 where
  pub protocol : Text
  pub hostname : Text
  pub port : Text
  pub pathname : Text
  pub search : Text
  pub username : Text
  pub password : Text
  pub href : Text

-- `none` where the constructor throws.
abbrev pub ParseUrl : Type 0
ParseUrl = Text → Option Url
