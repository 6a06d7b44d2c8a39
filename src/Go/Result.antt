-- ===== src/Go/Result.antt =====
-- A Go function that returns an error: `ok` where the error is nil. A function that returns nothing
-- but an error has a result in `Check`.
use nano_southbound.Prelude.{
  ◌⊎◌, inl, inr, ◌≡◌, refl, ◌↔◌, Bool, true, false, List, [], ◌∷◌, Option, none, some, All,
  is_empty, ◌≢◌,
}

pub data Result {ℓ} (E : Type ℓ) (A : Type ℓ) : Type ℓ where
  ok : A → Result E A
  err : E → Result E A

abbrev pub Check : Type 0 → Type 0
Check E = Result E (Unit {0})

infixl 5 ◌>>=◌ ◌>>◌
abbrev pub ◌>>=◌ {ℓ} : {E A B : Type ℓ} → Result E A → (A → Result E B) → Result E B
ok a >>= f = f a
err e >>= f = err e

abbrev pub ◌>>◌ : {E B : Type 0} → Check E → Result E B → Result E B
ok a >> k = k
err e >> k = err e

-- if refused { return e }
abbrev pub reject_if : {E : Type 0} → Bool → E → Check E
reject_if true e = err e
reject_if false e = ok tt

-- for _, x := range xs { if err := f(x); err != nil { return err } }
unfoldable pub each : {E A : Type 0} → (A → Check E) → List A → Check E
each f [] = ok tt
each f (x ∷ xs) = let rest = each f xs in f x >> rest

-- The same where nil entries are skipped.
unfoldable pub if_present : {E A : Type 0} → (A → Check E) → Option A → Check E
if_present f none = ok tt
if_present f (some a) = f a

-- A check that passes exactly if the statement holds.
abbrev pub Decides : {E : Type 0} → Check E → Type 0 → Type 0
Decides m P = (m ≡ ok tt) ↔ P

abbrev pub Present : {A : Type 0} → (A → Type 0) → Option A → Type 0
Present P none = Unit
Present P (some a) = P a

pub Decides-then :
    {E P Q : Type 0} (m k : Check E) → Decides m P → Decides k Q → Decides (m >> k) (P × Q)
Decides-then (ok tt) k d e = (λ h. (d.0 refl, e.0 h), λ h. e.1 h.1)
Decides-then (err x) k d e = (λ h. cc, λ h. cc (d.1 h.0))

pub Decides-each :
    {E A : Type 0} {P : A → Type 0} (f : A → Check E) (xs : List A)
    → ((x : A) → Decides (f x) (P x))
    → Decides (each f xs) (All P xs)
unfolding each
Decides-each f [] d = (λ h. tt, λ h. refl)
Decides-each f (x ∷ xs) d = Decides-then (f x) (each f xs) (d x) (Decides-each f xs d)

pub Decides-if_present :
    {E A : Type 0} {P : A → Type 0} (f : A → Check E) (o : Option A)
    → ((x : A) → Decides (f x) (P x))
    → Decides (if_present f o) (Present P o)
unfolding if_present
Decides-if_present f none d = (λ h. tt, λ h. refl)
Decides-if_present f (some a) d = d a

pub Decides-reject_if : {E : Type 0} (b : Bool) (e : E) → Decides (reject_if b e) (b ≡ false)
Decides-reject_if true e = (λ h. cc, λ h. cc)
Decides-reject_if false e = (λ h. refl, λ h. refl)

-- A check that a list or a text is not empty.
pub Decides-reject_empty :
    {E : Type 0} {A : Type 0} (l : List A) (e : E) → Decides (reject_if (is_empty l) e) (l ≢ [])
Decides-reject_empty [] e = (λ h. cc, λ h. absurd (h refl))
Decides-reject_empty (a ∷ l) e = (λ h q. cc, λ h. refl)

pub Decides-as : {E P Q : Type 0} (m : Check E) → Decides m P → (P → Q) → (Q → P) → Decides m Q
Decides-as m d f g = (λ h. f (d.0 h), λ q. d.1 (g q))

-- Inversion of a check and of a step before the rest of a function.
pub then-eq-ok :
    {E B : Type 0} (m : Check E) (k : Result E B) (b : B)
    → ((m >> k) ≡ ok b) ↔ ((m ≡ ok tt) × (k ≡ ok b))
then-eq-ok (ok tt) k b = (λ h. (refl, h), λ h. h.1)
then-eq-ok (err x) k b = (λ h. cc, λ h. cc)

pub >>=-eq-ok {ℓ} :
    {E A B : Type ℓ} (r : Result E A) (next : A → Result E B) {b : B}
    → (r >>= next) ≡ ok b
    → (x : A) × (r ≡ ok x) × (next x ≡ ok b)
>>=-eq-ok (err why) next failed = cc
>>=-eq-ok (ok x) next done = (x, refl, done)

pub ok-injective {ℓ} : {E A : Type ℓ} (a b : A) → ◌≡◌ {A = Result E A} (ok a) (ok b) → a ≡ b
ok-injective a b h = cc

-- To split on a result and keep the equation.
pub Result-cases {ℓ} :
    {E A : Type ℓ} (r : Result E A) → ((a : A) × (r ≡ ok a)) ⊎ ((e : E) × (r ≡ err e))
Result-cases (ok a) = inl (a, refl)
Result-cases (err e) = inr (e, refl)
