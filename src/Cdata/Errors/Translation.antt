-- ===== src/Cdata/Errors/Translation.antt =====
-- What `translateError` makes of an error, whatever the order in which Go ranges over the table.
use mathlib.Core.List.{Mem, Memᴰ, mem-cons_of_mem, mem-cons_self, Perm}
use mathlib.Core.Logic.{∥∥₁_elim}
use mathlib.Core.Bool.{Bool-set}
use mathlib.Core.List.Perm.{mem_iff}
use nano_southbound.Prelude.{
  ◌≡◌, ◌⊎◌, ◌≢◌, inl, inr, refl, sym, ap, ◌∙◌, Bool, true, false, not, none, some, List, [], ◌∷◌,
  arith, Bool-cases, Option-cases, every,
}
use nano_southbound.Go.Text.{Text, text_eq, text_eq_iff, to_lower, contains}
use nano_southbound.Go.Map.{Map}
use nano_southbound.Cdata.ErrorPatterns.{ErrorMapping, cdata_error_patterns, err_unknown}
use nano_southbound.Cdata.Errors.{
  Error, translated, error_text, find_pattern, translate_error, unknown_error, get_error_code,
}

abbrev pub Entry : Type 0
Entry = Text × ErrorMapping

-- The pattern of the entry occurs in the text of the error.
abbrev pub occurs : Error → Entry → Bool
occurs e entry = contains (to_lower (error_text e)) entry.0

find_pattern-some :
    (text : Text) (patterns : List Entry) (m : ErrorMapping)
    → find_pattern text patterns ≡ some m
    → (entry : Entry) × Mem entry patterns × (contains text entry.0 ≡ true) × (entry.1 ≡ m)
unfolding find_pattern
find_pattern-some text [] m h = cc
find_pattern-some text ((p, n) ∷ patterns) m h = elim (Bool-cases (contains text p)) [
  | inl found ↦ ((p, n), mem-cons_self, found, ground arith)
  | inr absent ↦
      let (entry, there, found, same) = find_pattern-some text patterns m (ground arith) in
      (entry, mem-cons_of_mem (p, n) there, found, same)
]

find_pattern-none :
    (text : Text) (patterns : List Entry)
    → find_pattern text patterns ≡ none
    → every (λ entry. not (contains text entry.0)) patterns ≡ true
unfolding find_pattern
find_pattern-none text [] h = refl
find_pattern-none text ((p, n) ∷ patterns) h = ground (arith, find_pattern-none text patterns)

every-MemD :
    (test : Entry → Bool) (entry : Entry) (patterns : List Entry)
    → every test patterns ≡ true
    → Memᴰ entry patterns
    → test entry ≡ true
every-MemD test entry [] h m = elim m [ ]
every-MemD test entry (other ∷ patterns) h (Memᴰ.head e) = rw e (ground arith)
every-MemD test entry (other ∷ patterns) h (Memᴰ.tail m) =
    every-MemD test entry patterns (ground arith) m

pub every-Mem :
    (test : Entry → Bool) (entry : Entry) (patterns : List Entry)
    → every test patterns ≡ true
    → Mem entry patterns
    → test entry ≡ true
every-Mem test entry patterns h m =
    ∥∥₁_elim m (Bool-set (test entry) true) (every-MemD test entry patterns h)

-- Every entry has a code that is known.
codes_known : every (λ entry. not (text_eq entry.1.code err_unknown)) cdata_error_patterns ≡ true
unfolding cdata_error_patterns text_eq
codes_known = refl

known_code : (entry : Entry) → Mem entry cdata_error_patterns → entry.1.code ≢ err_unknown
known_code entry there u = ground (
  arith,
  every-Mem (λ x. not (text_eq x.1.code err_unknown)) entry cdata_error_patterns codes_known there,
  text_eq_iff entry.1.code err_unknown,
)

module _ (patterns : Map ErrorMapping) (order : Perm patterns cdata_error_patterns)
    (e : Error) where
  -- What the error means by an entry of the table whose pattern occurs
  abbrev pub MeansEntry : Type 0
  MeansEntry =
      (entry : Entry) × Mem entry cdata_error_patterns
      × (occurs e entry ≡ true)
      × (translate_error patterns (some e) ≡ some (translated e entry.1))
      × (get_error_code (translate_error patterns (some e)) ≢ err_unknown)

  abbrev pub MeansNothing : Type 0
  MeansNothing =
      ((entry : Entry) → Mem entry cdata_error_patterns → occurs e entry ≡ false)
      × (translate_error patterns (some e) ≡ some (translated e (unknown_error e)))
      × (get_error_code (translate_error patterns (some e)) ≡ err_unknown)

  -- Whatever the order in which Go ranges over the table, an error is translated by an entry whose
  -- pattern occurs in its text in lower case, and has a code other than UNKNOWN, or no pattern of
  -- the table occurs in it, and it gets the code UNKNOWN and keeps its text.
  pub translate_error-means : MeansEntry ⊎ MeansNothing
  unfolding translate_error get_error_code unknown_error
  translate_error-means = elim (Option-cases (find_pattern (to_lower (error_text e)) patterns)) [
    | inr (m, found) ↦
        let (entry, there, here, same) =
          find_pattern-some (to_lower (error_text e)) patterns m found in
        inl (
          entry,
          (mem_iff order).0 there,
          here,
          rw found (ap (λ x. some (translated e x)) (sym same)),
          λ u. known_code entry ((mem_iff order).0 there) (ap (λ x. x.code) same ∙ (rw found at u)),
        )
    | inl missing ↦ inr (
      λ entry there. ground (
        arith,
        every-Mem (λ x. not (contains (to_lower (error_text e)) x.0)) entry patterns
            (find_pattern-none (to_lower (error_text e)) patterns missing)
            ((mem_iff order).1 there),
      ),
      rw missing,
      rw missing,
    )
  ]

-- Whatever the order in which Go ranges over the table, an error in whose text, in lower case, the
-- pattern of an entry of the table occurs is translated by that entry's meaning, if all entries whose
-- patterns occur in it mean the same as that one; so the order does not matter for such an error.
pub translate_error-agreed :
    (patterns : Map ErrorMapping) (e : Error) (entry : Entry)
    → Perm patterns cdata_error_patterns
    → Mem entry cdata_error_patterns
    → occurs e entry ≡ true
    → ((other : Entry) → Mem other cdata_error_patterns → occurs e other ≡ true → other.1 ≡ entry.1)
    → translate_error patterns (some e) ≡ some (translated e entry.1)
translate_error-agreed patterns e entry order there here agree =
    elim (translate_error-means patterns order e) [
      | inl (other, in_table, found, translation, known) ↦
          translation ∙ ap (λ m. some (translated e m)) (agree other in_table found)
      | inr (absent, translation, unknown) ↦ absurd (cc (absent entry there))
    ]
