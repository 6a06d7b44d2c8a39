-- ===== src/Common/Annotations.antt =====
-- vendors/common/annotations.go: values of the annotations, under the first of several keys.
use nano_southbound.Prelude.{
  inr, inl, Option-cases, ◌≡◌, refl, Option, none, some, List, [], ◌∷◌, arith, ℤ, Bool, true, not,
  every, is_some, IsFirst, IsFirst-here, IsFirst-later,
}
use nano_southbound.Go.Text.{Text}
use nano_southbound.Go.Map.{Map, lookup}
use nano_southbound.Go.Number.{atoi, success}

-- `for _, key := range keys`, up to the first key that gives a value
unfoldable pub first_value {ℓ} : {V : Type ℓ} → (Text → Option V) → List Text → Option V
first_value f [] = none
first_value f (k ∷ ks) = let rest = first_value f ks in elim (f k) [ some v ↦ some v | none ↦ rest ]

unfoldable pub get_annotation_string : Map Text → List Text → Option Text
unfolding first_value
get_annotation_string m ks = first_value (λ k. lookup k m) ks

-- The number under a key, where there is one
unfoldable pub int_at : Map Text → Text → Option ℤ
int_at m k = elim (lookup k m) [ some v ↦ success (atoi v) | none ↦ none ]

unfoldable pub get_annotation_int : Map Text → List Text → Option ℤ
unfolding first_value int_at
get_annotation_int m ks = first_value (int_at m) ks

abbrev or_default {ℓ} : {A : Type ℓ} → Option A → A → A
or_default none d = d
or_default (some v) d = v

unfoldable pub get_annotation_string_with_default : Map Text → Text → List Text → Text
unfolding get_annotation_string
get_annotation_string_with_default m d ks = or_default (get_annotation_string m ks) d

unfoldable pub get_annotation_int_with_default : Map Text → ℤ → List Text → ℤ
unfolding get_annotation_int
get_annotation_int_with_default m d ks = or_default (get_annotation_int m ks) d

module _ {V : Type 0} (f : Text → Option V) where
  abbrev pub hits : Text → Bool
  hits k = is_some (f k)

  -- The result is that of the first key for which there is one; there is none if there is for no key.
  abbrev pub FirstHit : List Text → Option V → Type 0
  FirstHit ks none = every (λ k. not (hits k)) ks ≡ true
  FirstHit ks (some v) = (k : Text) × IsFirst hits ks k × (f k ≡ some v)

  hit : (k : Text) (v : V) → f k ≡ some v → hits k ≡ true
  hit k v e = rw e

  FirstHit-here : (k : Text) (ks : List Text) (v : V) → f k ≡ some v → FirstHit (k ∷ ks) (some v)
  FirstHit-here k ks v e = (k, IsFirst-here hits k ks (hit k v e), e)

  FirstHit-later :
      (k : Text) (ks : List Text) (r : Option V) → f k ≡ none → FirstHit ks r → FirstHit (k ∷ ks) r
  FirstHit-later k ks none e misses = rw e misses
  FirstHit-later k ks (some v) e (j, first, found) =
      (j, IsFirst-later hits k j ks (rw e) first, found)

  first_value-FirstHit : (ks : List Text) → FirstHit ks (first_value f ks)
  unfolding first_value
  first_value-FirstHit [] = refl
  first_value-FirstHit (k ∷ ks) = elim (Option-cases (f k)) [
    | inl e ↦
        rw (e, first_value) (FirstHit-later k ks (first_value f ks) e (first_value-FirstHit ks))
    | inr (v, e) ↦ rw (e, first_value) (FirstHit-here k ks v e)
  ]

-- The text is that of the first key that is present, and the number is that of the first key whose
-- value is a number; there is none exactly if no key is such.
pub annotation-FirstHit :
    (m : Map Text) (ks : List Text)
    → FirstHit (λ k. lookup k m) ks (get_annotation_string m ks)
      × FirstHit (int_at m) ks (get_annotation_int m ks)
unfolding get_annotation_string get_annotation_int
annotation-FirstHit m ks =
    (first_value-FirstHit (λ k. lookup k m) ks, first_value-FirstHit (int_at m) ks)

-- A key whose value is no number is passed over: the text is that of the first key that is present,
-- and the number is that of the first later key whose value is one, whatever the defaults.
pub annotation_int_passes :
    (m : Map Text) (k j : Text) (ks : List Text) (v w : Text) (n d : ℤ)
    → lookup k m ≡ some v
    → success (atoi v) ≡ none
    → lookup j m ≡ some w
    → success (atoi w) ≡ some n
    → (get_annotation_string_with_default m [] (k ∷ j ∷ ks) ≡ v)
      × (get_annotation_int_with_default m d (k ∷ j ∷ ks) ≡ n)
unfolding get_annotation_string_with_default get_annotation_int_with_default
annotation_int_passes m k j ks v w n d a b c e = ground arith
