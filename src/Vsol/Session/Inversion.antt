-- ===== src/Vsol/Session/Inversion.antt =====
-- What a method that succeeds must have done at each step.
use nano_southbound.Prelude.{◌≡◌, refl, ap, List}
use nano_southbound.Go.Text.{Text}
use nano_southbound.Go.Result.{Result, ok, err}
use nano_southbound.Vsol.Session.{Error, invalid, failed, Run, ◌>>=◌, continue, wrapped, wrap}

pub continue-eq_ok :
    {S A B : Type 0} (r : Result Error A) (f : A → Run S B) (s t : S) (b : B)
    → continue r f s ≡ (ok b, t)
    → (a : A) × (r ≡ ok a) × (f a s ≡ (ok b, t))
continue-eq_ok (ok a) f s t b h = (a, refl, h)
continue-eq_ok (err e) f s t b h = cc

pub wrapped-eq_ok :
    (context : Text) (r : Result Text (List Text)) (outputs : List Text)
    → wrapped context r ≡ ok outputs
    → r ≡ ok outputs
wrapped-eq_ok context (ok o) outputs h = cc
wrapped-eq_ok context (err m) outputs h = cc

pub wrap-eq_ok :
    {A : Type 0} (context : Text) (r : Result Error A) (a : A) → wrap context r ≡ ok a → r ≡ ok a
wrap-eq_ok context (ok x) a h = h
wrap-eq_ok context (err (failed m)) a h = cc
wrap-eq_ok context (err (invalid e)) a h = cc

pub >>=-eq_ok_run :
    {S A B : Type 0} (m : Run S A) (f : A → Run S B) (s t : S) (b : B)
    → (m >>= f) s ≡ (ok b, t)
    → (a : A) × (u : S) × (m s ≡ (ok a, u)) × (f a u ≡ (ok b, t))
>>=-eq_ok_run m f s t b h =
    let (a, e, rest) = continue-eq_ok (m s).0 f (m s).1 t b h in
    (a, (m s).1, ap (λ r. (r, (m s).1)) e, rest)
