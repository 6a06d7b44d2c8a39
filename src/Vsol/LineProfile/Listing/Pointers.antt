-- ===== src/Vsol/LineProfile/Listing/Pointers.antt =====
-- Lists of pointers, and a change of what the last pointer of a list points at.
use nano_southbound.Prelude.{Option, none, some, List, [], ◌∷◌, All}
use nano_southbound.Vsol.LineProfile.Listing.{update_last}

-- A pointer that is not nil, at something of which the statement holds
abbrev pub Held : {A : Type 0} → (A → Type 0) → Option A → Type 0
Held P none = ⊥
Held P (some a) = P a

-- The list ends in a pointer that is not nil.
abbrev pub LastIs : {A : Type 0} → (A → Type 0) → List (Option A) → Type 0
LastIs Q [] = ⊥
LastIs Q (x ∷ []) = Held Q x
LastIs Q (x ∷ y ∷ xs) = LastIs Q (y ∷ xs)

module _ {A : Type 0} (P Q : A → Type 0) (f : A → A) where
  pub update_last-All :
      (xs : List (Option A))
      → ((a : A) → P a → Q a → P (f a))
      → All (Held P) xs
      → LastIs Q xs
      → All (Held P) (update_last f xs)
  unfolding update_last
  update_last-All [] keep h l = absurd l
  update_last-All (none ∷ []) keep h l = absurd l
  update_last-All (some a ∷ []) keep h l = (keep a h.0 l, tt)
  update_last-All (none ∷ y ∷ xs) keep h l = absurd h.0
  update_last-All (some a ∷ y ∷ xs) keep h l = (h.0, update_last-All (y ∷ xs) keep h.1 l)

module _ {A : Type 0} (Q R : A → Type 0) (f : A → A) where
  pub update_last-LastIs :
      (xs : List (Option A)) → ((a : A) → Q a → R (f a)) → LastIs Q xs → LastIs R (update_last f xs)
  unfolding update_last
  update_last-LastIs [] keep l = absurd l
  update_last-LastIs (none ∷ []) keep l = absurd l
  update_last-LastIs (some a ∷ []) keep l = keep a l
  update_last-LastIs (none ∷ none ∷ []) keep l = absurd l
  update_last-LastIs (none ∷ some b ∷ []) keep l = keep b l
  update_last-LastIs (none ∷ none ∷ z ∷ xs) keep l = update_last-LastIs (none ∷ z ∷ xs) keep l
  update_last-LastIs (none ∷ some b ∷ z ∷ xs) keep l = update_last-LastIs (some b ∷ z ∷ xs) keep l
  update_last-LastIs (some a ∷ none ∷ []) keep l = absurd l
  update_last-LastIs (some a ∷ some b ∷ []) keep l = keep b l
  update_last-LastIs (some a ∷ none ∷ z ∷ xs) keep l = update_last-LastIs (none ∷ z ∷ xs) keep l
  update_last-LastIs (some a ∷ some b ∷ z ∷ xs) keep l = update_last-LastIs (some b ∷ z ∷ xs) keep l
