-- ===== src/Js/Values.antt =====
-- Values of the dynamic language: the numbers that the code meets are naturals.
use forta_node_tr.Prelude.{
  ℕ, Text, Bool, true, false, not, is_empty, ◌==◌, Dict, lookup, some, none,
}

mutual
  pub data Value : Type 0 where
    undefined null : Value
    bool : Bool → Value
    num : ℕ → Value
    str : Text → Value
    arr : Items → Value
    obj : Fields → Value

  pub data Items : Type 0 where
    nil : Items
    cons : Value → Items → Items

  pub data Fields : Type 0 where
    end : Fields
    field : Text → Value → Fields → Fields

-- What `if (v)` tests.
abbrev pub truthy : Value → Bool
truthy undefined = false
truthy null = false
truthy (bool b) = b
truthy (num n) = not (n == 0)
truthy (str s) = not (is_empty s)
truthy (arr l) = true
truthy (obj o) = true

-- `o[k]`, undefined where there is no such property.
pub get : Text → Dict Value → Value
get k o = elim (lookup k o) [ some v ↦ v | none ↦ undefined ]
