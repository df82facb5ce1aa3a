-- ===== src/Base/Membership.antt =====
-- An element at some place of a list, the place kept.
use mathlib.Core.Path.{◌≡◌}
use mathlib.Core.Logic.{◌⊎◌, inl, inr}
use mathlib.Core.List.{List, ◌∷◌}

pub data Among {ℓ} {A : Type ℓ} (a : A) : List A → Type ℓ where
  first : {x : A} {xs : List A} → a ≡ x → Among a (x ∷ xs)
  later : {x : A} {xs : List A} → Among a xs → Among a (x ∷ xs)

pub Among-cases {ℓ} : {A : Type ℓ} {a x : A} {xs : List A} → Among a (x ∷ xs) → (a ≡ x) ⊎ Among a xs
Among-cases (first e) = inl e
Among-cases (later m) = inr m
