-- ===== src/Common/Ansi.antt =====
-- vendors/common/text.go: `StripANSI`, which removes what matches `\x1b\[[0-9;]*[a-zA-Z]`.
use nano_southbound.Prelude.{
  false, ◌∙◌, arith, ap, not, ◌++◌, true, All, length, List, every, ℕ, zero, suc, ◌+◌, ◌-◌, ◌≡◌,
  refl, Bool, ◌&&◌, ◌||◌, [], ◌∷◌, ◌==◌, if◌then◌else◌,
}
use nano_southbound.Go.Text.{Text, codes, is_digit, is_lower, is_upper}

abbrev pub is_param : ℕ → Bool
is_param c = is_digit c || c == b';'

abbrev pub is_letter : ℕ → Bool
is_letter c = is_upper c || is_lower c

-- The length of the match of `[0-9;]*[a-zA-Z]` at the head, or 0.
unfoldable pub parameters_length : Text → ℕ
parameters_length [] = 0
parameters_length (c ∷ s) =
    let rest = parameters_length s in
    if is_param c then (if rest == 0 then 0 else suc rest) else if is_letter c then 1 else 0

-- The length of a match of the expression at the head, or 0.
unfoldable pub sequence_length : Text → ℕ
unfolding parameters_length
sequence_length (a ∷ b ∷ s) =
    if a == 0x1b && b == b'['
    then (if parameters_length s == 0 then 0 else parameters_length s + 2)
    else 0
sequence_length _ = 0

-- What is left after `skip` bytes are passed over; matches do not overlap.
unfoldable pub strip_from : ℕ → Text → Text
unfolding sequence_length
strip_from skip [] = []
strip_from (suc k) (c ∷ s) = strip_from k s
strip_from zero (c ∷ s) =
    let n = sequence_length (c ∷ s) in
    let kept = strip_from 0 s in
    let passed = strip_from (n - 1) s in if n == 0 then c ∷ kept else passed

unfoldable pub strip_ansi : Text → Text
unfolding strip_from
strip_ansi s = strip_from 0 s

strip_ansi_colour : strip_ansi (codes "\u{1b}[0;31mred\u{1b}[0m") ≡ codes "red"
unfolding strip_ansi
strip_ansi_colour = refl

-- A piece of terminal output: text with no escape byte, or a sequence with its parameters and letter.
pub data Piece : Type 0 where
  plain : Text → Piece
  sequence : Text → ℕ → Piece

abbrev pub IsPiece : Piece → Type 0
IsPiece (plain s) = every (λ c. not (c == 0x1b)) s ≡ true
IsPiece (sequence ps l) = (every is_param ps ≡ true) × (is_letter l ≡ true)

abbrev pub render : List Piece → Text
render [] = []
render (plain s ∷ rest) = s ++ render rest
render (sequence ps l ∷ rest) = 0x1b ∷ b'[' ∷ (ps ++ (l ∷ render rest))

abbrev pub visible : List Piece → Text
visible [] = []
visible (plain s ∷ rest) = s ++ visible rest
visible (sequence ps l ∷ rest) = visible rest

sequence_length-other : (c : ℕ) (s : Text) → (c == 0x1b) ≡ false → sequence_length (c ∷ s) ≡ 0
unfolding sequence_length
sequence_length-other c [] h = refl
sequence_length-other c (d ∷ s) h = ground arith

strip_from-plain :
    (s rest : Text)
    → every (λ c. not (c == 0x1b)) s ≡ true
    → strip_from 0 (s ++ rest) ≡ s ++ strip_from 0 rest
unfolding strip_from
strip_from-plain [] rest h = refl
strip_from-plain (c ∷ s) rest h =
    ground (arith, sequence_length-other c (s ++ rest), strip_from-plain s rest)

parameters_length-append :
    (ps : Text) (l : ℕ) (rest : Text)
    → every is_param ps ≡ true
    → is_letter l ≡ true
    → parameters_length (ps ++ l ∷ rest) ≡ length ps + 1
unfolding parameters_length
parameters_length-append [] l rest h k = ground arith
parameters_length-append (c ∷ ps) l rest h k = ground (arith, parameters_length-append ps l rest)

strip_from-skip :
    (s : Text) (l : ℕ) (rest : Text)
    → strip_from (suc (length s)) (s ++ l ∷ rest) ≡ strip_from 0 rest
unfolding strip_from
strip_from-skip [] l rest = refl
strip_from-skip (c ∷ s) l rest = strip_from-skip s l rest

strip_from_step :
    (c n : ℕ) (s : Text) → sequence_length (c ∷ s) ≡ suc n → strip_from 0 (c ∷ s) ≡ strip_from n s
unfolding strip_from
strip_from_step c n s e = ground arith

sequence_length-append :
    (ps : Text) (l : ℕ) (rest : Text)
    → every is_param ps ≡ true
    → is_letter l ≡ true
    → sequence_length (0x1b ∷ b'[' ∷ (ps ++ l ∷ rest)) ≡ suc (suc (suc (length ps)))
unfolding sequence_length
sequence_length-append ps l rest h k = ground (arith, parameters_length-append ps l rest h k)

strip_from-sequence :
    (ps : Text) (l : ℕ) (rest : Text)
    → every is_param ps ≡ true
    → is_letter l ≡ true
    → strip_from 0 (0x1b ∷ b'[' ∷ (ps ++ l ∷ rest)) ≡ strip_from 0 rest
strip_from-sequence ps l rest h k =
    strip_from_step 0x1b (suc (suc (length ps))) (b'[' ∷ (ps ++ l ∷ rest))
      (sequence_length-append ps l rest h k)
    ∙ unfold strip_from in strip_from-skip ps l rest

-- Terminal output loses exactly its escape sequences: what is left is the text between them.
pub strip_ansi-render :
    (pieces : List Piece) → All IsPiece pieces → strip_ansi (render pieces) ≡ visible pieces
unfolding strip_ansi
strip_ansi-render [] h = refl
strip_ansi-render (plain s ∷ rest) h =
    rw (strip_from-plain s (render rest) h.0) (ap (λ t. s ++ t) (strip_ansi-render rest h.1))
strip_ansi-render (sequence ps l ∷ rest) h =
    rw (strip_from-sequence ps l (render rest) h.0.0 h.0.1) (strip_ansi-render rest h.1)
