-- ===== src/Publisher/Batch/Upsert.antt =====
-- What an upsert does to the contents of a list (services/publisher/publisher.go).
use mathlib.Core.List.{Perm, perm_middle}
use mathlib.Core.List.Perm
use forta_node_tr.Prelude.{
  List, [], ◌∷◌, ◌++◌, append-nil, Bool, Bool-cases, ◌≡◌, inl, inr, sym, ap, ◌∙◌, subst,
}
use forta_node_tr.Publisher.Batch.{upsert}

-- What all items of a list hold.
abbrev pub gathered : {A B : Type 0} → (A → List B) → List A → List B
gathered content [] = []
gathered content (x ∷ xs) = content x ++ gathered content xs

module _ {A B : Type 0} (content : A → List B) (matches : A → Bool) (fresh : A) (f : A → A)
    (new : content fresh ≡ []) where
  -- If `f` adds one thing to an item, an upsert adds one thing to the list.
  pub upsert-adds :
      (b : B) (xs : List A)
      → ((x : A) → Perm (content (f x)) (b ∷ content x))
      → Perm (gathered content (upsert matches fresh f xs)) (b ∷ gathered content xs)
  unfolding upsert
  upsert-adds b [] adds =
      subst (λ l. Perm l (b ∷ [])) (sym (append-nil (content (f fresh))))
        (subst (λ l. Perm (content (f fresh)) (b ∷ l)) new (adds fresh))
  upsert-adds b (x ∷ xs) adds = elim (Bool-cases (matches x)) [
    | inl e ↦ rw e (Perm.append_right (gathered content xs) (adds x))
    | inr e ↦ rw e (
        Perm.trans (Perm.append_left (content x) (upsert-adds b xs adds))
          (perm_middle (content x) (gathered content xs)))
  ]

  -- If `f` adds nothing to an item, an upsert adds nothing to the list.
  pub upsert-keeps :
      (xs : List A)
      → ((x : A) → content (f x) ≡ content x)
      → gathered content (upsert matches fresh f xs) ≡ gathered content xs
  unfolding upsert
  upsert-keeps [] keeps = ap (λ l. l ++ []) (keeps fresh ∙ new)
  upsert-keeps (x ∷ xs) keeps = elim (Bool-cases (matches x)) [
    | inl e ↦ rw e (ap (λ l. l ++ gathered content xs) (keeps x))
    | inr e ↦ rw e (ap (λ l. content x ++ l) (upsert-keeps xs keeps))
  ]
