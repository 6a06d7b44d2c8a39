-- ===== src/Go/Map.antt =====
-- Go's maps with text keys, as association lists. No function of the model depends on the order of
-- the entries; where Go ranges over a map, the order is a parameter.
use nano_southbound.Prelude.{
  ◌≡◌, refl, Bool, Option, none, some, List, [], ◌∷◌, arith, if◌then◌else◌, is_some,
}
use nano_southbound.Go.Text.{Text, text_eq, text_eq_iff}

abbrev pub Map {ℓ} : Type ℓ → Type ℓ
Map V = List (Text × V)

module _ {ℓ} {V : Type ℓ} where
  -- v, ok := m[key]
  unfoldable pub lookup : Text → Map V → Option V
  lookup key [] = none
  lookup key ((other, v) ∷ rest) =
      let found = lookup key rest in if text_eq other key then some v else found

  -- delete(m, key)
  unfoldable pub delete : Text → Map V → Map V
  delete key [] = []
  delete key ((other, v) ∷ rest) =
      let kept = delete key rest in if text_eq other key then kept else (other, v) ∷ kept

  -- m[key] = v
  unfoldable pub insert : Text → V → Map V → Map V
  insert key v [] = (key, v) ∷ []
  insert key v ((other, w) ∷ rest) =
      let put = insert key v rest in if text_eq other key then (key, v) ∷ rest else (other, w) ∷ put

  abbrev pub has_key : Text → Map V → Bool
  has_key key m = is_some (lookup key m)

  pub lookup-delete :
      (key asked : Text) (m : Map V)
      → lookup asked (delete key m) ≡ (if text_eq key asked then none else lookup asked m)
  unfolding lookup delete
  lookup-delete key asked [] = ground arith
  lookup-delete key asked ((other, v) ∷ m) = ground (
    arith,
    lookup-delete key asked m,
    text_eq_iff other key,
    text_eq_iff other asked,
    text_eq_iff key asked,
  )

  pub lookup-insert :
      (key asked : Text) (v : V) (m : Map V)
      → lookup asked (insert key v m) ≡ (if text_eq key asked then some v else lookup asked m)
  unfolding lookup insert
  lookup-insert key asked v [] = refl
  lookup-insert key asked v ((other, w) ∷ m) = ground (
    arith,
    lookup-insert key asked v m,
    text_eq_iff other key,
    text_eq_iff other asked,
    text_eq_iff key asked,
  )
