-- ===== src/Go/Text/Words.antt =====
-- Words of a text: joining and splitting.
use nano_southbound.Prelude.{
  ℕ, ◌≡◌, ◌≢◌, refl, Bool, true, not, List, [], ◌∷◌, ◌++◌, arith, ◌==◌, is_empty, keep, every, All,
}
use nano_southbound.Go.Text.{Text, split_on, split, fields_func, fields, join, is_space}

-- No byte of the text passes the test.
abbrev pub Lacks : (ℕ → Bool) → Text → Type 0
Lacks sep p = every (λ c. not (sep c)) p ≡ true

-- A part that `FieldsFunc` gives back as it is.
abbrev pub IsWord : (ℕ → Bool) → Text → Type 0
IsWord sep p = (p ≢ []) × Lacks sep p

split_on-Lacks : (sep : ℕ → Bool) (p : Text) → Lacks sep p → split_on sep p ≡ p ∷ []
unfolding split_on
split_on-Lacks sep [] h = refl
split_on-Lacks sep (c ∷ p) h = ground (arith, split_on-Lacks sep p)

split_on-append :
    (sep : ℕ → Bool) (p : Text) (c : ℕ) (rest : Text)
    → Lacks sep p
    → sep c ≡ true
    → split_on sep (p ++ c ∷ rest) ≡ p ∷ split_on sep rest
unfolding split_on
split_on-append sep [] c rest h e = ground arith
split_on-append sep (d ∷ p) c rest h e = ground (arith, split_on-append sep p c rest)

split_on-join :
    (sep : ℕ → Bool) (c : ℕ) (p : Text) (ps : List Text)
    → sep c ≡ true
    → All (Lacks sep) (p ∷ ps)
    → split_on sep (join (p ∷ ps) (c ∷ [])) ≡ p ∷ ps
unfolding join
split_on-join sep c p [] e h = split_on-Lacks sep p h.0
split_on-join sep c p (q ∷ ps) e h =
    cc (split_on-append sep p c (join (q ∷ ps) (c ∷ [])) h.0 e, split_on-join sep c q ps e h.1)

-- `strings.Split` gives the parts of a join back, if none holds the separator.
pub split-join :
    (c : ℕ) (p : Text) (ps : List Text)
    → All (Lacks (λ d. d == c)) (p ∷ ps)
    → split (join (p ∷ ps) (c ∷ [])) c ≡ p ∷ ps
unfolding split
split-join c p ps h = split_on-join (λ d. d == c) c p ps (ground arith) h

keep_words :
    (sep : ℕ → Bool) (ps : List Text) → All (IsWord sep) ps → keep (λ p. not (is_empty p)) ps ≡ ps
keep_words sep [] h = refl
keep_words sep ([] ∷ ps) h = absurd (h.0.0 refl)
keep_words sep ((c ∷ p) ∷ ps) h = cc (keep_words sep ps h.1)

words-Lacks : (sep : ℕ → Bool) (ps : List Text) → All (IsWord sep) ps → All (Lacks sep) ps
words-Lacks sep [] h = tt
words-Lacks sep (p ∷ ps) h = (h.0.1, words-Lacks sep ps h.1)

-- `strings.FieldsFunc` gives back words that one separator joins.
pub fields_func-join :
    (sep : ℕ → Bool) (c : ℕ) (ps : List Text)
    → sep c ≡ true
    → All (IsWord sep) ps
    → fields_func sep (join ps (c ∷ [])) ≡ ps
unfolding fields_func
fields_func-join sep c [] e h = unfold join split_on in refl
fields_func-join sep c (p ∷ ps) e h =
    cc (split_on-join sep c p ps e (words-Lacks sep (p ∷ ps) h), keep_words sep (p ∷ ps) h)

-- `strings.Fields` gives back words that single blanks join.
pub fields-join : (ps : List Text) → All (IsWord is_space) ps → fields (join ps (32 ∷ [])) ≡ ps
unfolding fields
fields-join ps h = fields_func-join is_space 32 ps refl h
