-- ===== src/Go/Decimal.antt =====
-- Printed numbers as words of a line.
use nano_southbound.Prelude.{suc, ◌≡◌, refl, true, not, [], ◌∷◌, arith, every, ℤ, pos, negsuc}
use nano_southbound.Go.Text.{Text, is_space, is_digit}
use nano_southbound.Go.Text.Words.{IsWord}
use nano_southbound.Go.Number.{itoa, format_nat, format_nat-ne-nil, every-format_nat}

pub digits-not_space : (s : Text) → every is_digit s ≡ true → every (λ c. not (is_space c)) s ≡ true
digits-not_space [] h = refl
digits-not_space (c ∷ s) h = ground (arith, digits-not_space s)

pub itoa-IsWord : (z : ℤ) → IsWord is_space (itoa z)
unfolding itoa
itoa-IsWord (pos n) = (format_nat-ne-nil n, digits-not_space (format_nat n) (every-format_nat n))
itoa-IsWord (negsuc n) = (λ e. cc, digits-not_space (format_nat (suc n)) (every-format_nat (suc n)))
