-- ===== src/Registry/Checks.antt =====
-- What the checks of the registry publish, and what they keep (store/registry.go and
-- services/registry/registry.go).
use forta_node_tr.Prelude.{
  ℕ, ◌-◌, ◌≤◌, Text, List, [], ◌∷◌, Bool, true, false, none, some, ◌≡◌, ◌⊎◌, ok,
}
use forta_node_tr.Registry.{
  Assigned, RegistryClient, RegistryStore, update_interval, ConfigPointer, Answer,
}

-- The items of a list that were turned into others, in their order; some may be left out.
pub data Picked {A B : Type 0} (R : A → B → Type 0) : List A → List B → Type 0 where
  no_more : Picked R [] []
  kept :
      {a : A} {b : B} {as' : List A} {bs : List B}
      → R a b
      → Picked R as' bs
      → Picked R (a ∷ as') (b ∷ bs)
  left_out : {a : A} {as' : List A} {bs : List B} → Picked R as' bs → Picked R (a ∷ as') bs

-- The version and the time of the last list are kept.
abbrev pub SameVersion : {S : Type 0} → RegistryStore S → RegistryStore S → Type 0
SameVersion st st' = (st'.version ≡ st.version) × (st'.last_update ≡ st.last_update)

module _ {S : Type 0} (rc : RegistryClient S) where
  -- The configuration of an assigned agent: nil without a manifest, else with a valid image.
  abbrev pub Served : Assigned → ConfigPointer → Type 0
  Served a none = a.manifest ≡ []
  Served a (some c) =
      (c.id ≡ a.agent_id)
      × (c.manifest ≡ a.manifest)
      × (raw : Text) × (rc.validate_disco_image_ref raw ≡ ok c.image)

  -- The configurations are those of agents in the list; if there are none, and no agent failed,
  -- there are no agents.
  abbrev Made : List Assigned → (List ConfigPointer × Bool) × S → Type 0
  Made as' ((cs, failed), s) = Picked Served as' cs × (cs ≡ [] → failed ≡ false → as' ≡ [])

  module _ (now : ℕ) (scanner : Text) (st : RegistryStore S) where
    abbrev pub Hashed : Text → Type 0
    Hashed h = (s : S) × (s' : S) × (rc.get_assignment_hash scanner s ≡ (ok h, s'))

    abbrev pub Disabled : Type 0
    Disabled = (s : S) × (s' : S) × (rc.is_enabled_scanner scanner s ≡ (ok false, s'))

    abbrev pub Enabled : Type 0
    Enabled = (s : S) × (s' : S) × (rc.is_enabled_scanner scanner s ≡ (ok true, s'))

    -- A list of agents that the registry gave for the scanner, and the configurations of it.
    abbrev pub Listed : List ConfigPointer → Type 0
    Listed cs =
        (as' : List Assigned) × (s : S) × (s' : S) × (rc.assigned_agents scanner s
          ≡ ((as', none), s'))
        × Picked Served as' cs
        × (cs ≡ [] → as' ≡ [])

    -- The outcomes of a check that does not fail.
    abbrev pub Unchanged : Answer → RegistryStore S → Type 0
    Unchanged x t =
        (x ≡ ([], false))
        × SameVersion st t
        × Hashed st.version
        × Enabled
        × (now - st.last_update ≤ update_interval)

    abbrev pub SwitchedOff : Answer → RegistryStore S → Type 0
    SwitchedOff x t = (x ≡ ([], true)) × SameVersion st t × Disabled

    abbrev pub Renewed : Answer → RegistryStore S → Type 0
    Renewed x t = (x.1 ≡ true) × Listed x.0 × Enabled × Hashed t.version × (t.last_update ≡ now)

    abbrev pub Checked : Answer → RegistryStore S → Type 0
    Checked x t = Unchanged x t ⊎ (SwitchedOff x t ⊎ Renewed x t)

    abbrev pub Failing : Text → RegistryStore S → Type 0
    Failing _ t = SameVersion st t
