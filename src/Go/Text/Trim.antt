-- ===== src/Go/Text/Trim.antt =====
-- What trimming leaves of a text.
use nano_southbound.Prelude.{ℕ, ◌≡◌, refl, Bool, true, false, [], ◌∷◌, arith, every, keep}
use nano_southbound.Go.Text.{Text, is_space, trim_left, trim_right, trim_space}

-- The text does not begin with a blank.
abbrev HasHead : Text → Type 0
HasHead [] = Unit
HasHead (c ∷ s) = is_space c ≡ false

trim_left-HasHead : (s : Text) → HasHead (trim_left s)
unfolding trim_left
trim_left-HasHead [] = tt
trim_left-HasHead (c ∷ s) = ground (arith, trim_left-HasHead s)

trim_left-eq_self : (s : Text) → HasHead s → trim_left s ≡ s
unfolding trim_left
trim_left-eq_self [] h = refl
trim_left-eq_self (c ∷ s) h = ground arith

trim_right-HasHead : (s : Text) → HasHead s → HasHead (trim_right s)
unfolding trim_right
trim_right-HasHead [] h = tt
trim_right-HasHead (c ∷ s) h = ground arith

trim_right_idem : (s : Text) → trim_right (trim_right s) ≡ trim_right s
unfolding trim_right
trim_right_idem [] = refl
trim_right_idem (c ∷ s) = ground (arith, trim_right_idem s)

pub trim_space_idem : (s : Text) → trim_space (trim_space s) ≡ trim_space s
unfolding trim_space
trim_space_idem s =
    let h = trim_right-HasHead (trim_left s) (trim_left-HasHead s) in
    rw (trim_left-eq_self (trim_right (trim_left s)) h) (trim_right_idem (trim_left s))

module _ (p : ℕ → Bool) where
  every-trim_left : (s : Text) → every p s ≡ true → every p (trim_left s) ≡ true
  unfolding trim_left
  every-trim_left [] h = refl
  every-trim_left (c ∷ s) h = ground (arith, every-trim_left s)

  every-trim_right : (s : Text) → every p s ≡ true → every p (trim_right s) ≡ true
  unfolding trim_right
  every-trim_right [] h = refl
  every-trim_right (c ∷ s) h = ground (arith, every-trim_right s)

  -- A test that all bytes pass is passed by all bytes of the trimmed text.
  pub every-trim_space : (s : Text) → every p s ≡ true → every p (trim_space s) ≡ true
  unfolding trim_space
  every-trim_space s h = every-trim_right (trim_left s) (every-trim_left s h)

  pub every-keep : (s : Text) → every p (keep p s) ≡ true
  every-keep [] = refl
  every-keep (c ∷ s) = ground (arith, every-keep s)

  pub keep-eq_self : (s : Text) → every p s ≡ true → keep p s ≡ s
  keep-eq_self [] h = refl
  keep-eq_self (c ∷ s) h = ground (arith, keep-eq_self s)
