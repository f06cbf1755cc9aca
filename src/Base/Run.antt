-- ===== src/Base/Run.antt =====
-- Programs that change a state and may end with an error: what they change stays changed.
use mathlib.Core.Path.{◌≡◌, refl}
use mathlib.Core.Bool.{Bool, true, false}
use native.Mathlib.Omega.{arith}
use aursmith.Base.Results.{Result, ok, err}

-- a part of a program that changes a state and may end with an error
abbrev pub Run : Type 0 → Type 0 → Type 0 → Type 0
Run S E A = S → Result A E × S

-- what follows a part of a handler: nothing after an error
abbrev pub continue : {S E A B : Type 0} → (A → Run S E B) → Result A E × S → Result B E × S
continue f (ok a, t) = f a t
continue f (err e, t) = (err e, t)

infixl 5 ◌>>=◌ ◌>>◌
abbrev pub ◌>>=◌ : {S E A B : Type 0} → Run S E A → (A → Run S E B) → Run S E B
◌>>=◌ m f s = continue f (m s)

abbrev pub ◌>>◌ : {S E B : Type 0} → Run S E (Unit {0}) → Run S E B → Run S E B
m >> k = m >>= λ _. k

abbrev pub pure : {S E A : Type 0} → A → Run S E A
pure a s = (ok a, s)

abbrev pub raise : {S E A : Type 0} → E → Run S E A
raise e s = (err e, s)

abbrev pub lift : {S E A : Type 0} → Result A E → Run S E A
lift r s = (r, s)

-- a query
abbrev pub reads : {S E A : Type 0} → (S → A) → Run S E A
reads f s = (ok (f s), s)

-- a query that may fail the request
abbrev pub reads_result : {S E A : Type 0} → (S → Result A E) → Run S E A
reads_result f s = (f s, s)

abbrev pub modify : {S E : Type 0} → (S → S) → Run S E (Unit {0})
modify f s = (ok tt, f s)

abbrev pub check : {S E : Type 0} → Bool → E → Run S E (Unit {0})
check true e s = (ok tt, s)
check false e s = (err e, s)

continue-keeps :
    {S E A B : Type 0} (I : S → Type 0) (f : A → Run S E B) (x : Result A E × S)
    → I x.1
    → ((a : A) → x.0 ≡ ok a → I (f a x.1).1)
    → I (continue f x).1
continue-keeps I f (ok a, t) h k = k a refl
continue-keeps I f (err e, t) h k = h

-- A property of the state after both parts of a bind: the first keeps it, and so does the second on
-- each result of the first.
pub bind-keeps :
    {S E A B : Type 0} (I : S → Type 0) (m : Run S E A) (f : A → Run S E B) (s : S)
    → I (m s).1
    → ((a : A) → (m s).0 ≡ ok a → I (f a (m s).1).1)
    → I ((m >>= f) s).1
bind-keeps I m f s h k = continue-keeps I f (m s) h k

pub check-keeps :
    {S E B : Type 0} (I : S → Type 0) (test : Bool) (e : E) (k : Run S E B) (s : S)
    → I s
    → (test ≡ true → I (k s).1)
    → I ((check test e >> k) s).1
check-keeps I true e k s h f = f refl
check-keeps I false e k s h f = h

continue-ok :
    {S E A B : Type 0} (f : A → Run S E B) (x : Result A E × S) (b : B)
    → (continue f x).0 ≡ ok b
    → (a : A) × ((x.0 ≡ ok a) × (continue f x ≡ f a x.1))
continue-ok f (ok a, t) b h = (a, (refl, refl))
continue-ok f (err e, t) b h = absurd (ground arith)

-- A bind that ends well has a first part that does.
pub bind-ok :
    {S E A B : Type 0} (m : Run S E A) (f : A → Run S E B) (s : S) (b : B)
    → ((m >>= f) s).0 ≡ ok b
    → (a : A) × (((m s).0 ≡ ok a) × (((m >>= f) s) ≡ f a (m s).1))
bind-ok m f s b h = continue-ok f (m s) b h

pub check-ok :
    {S E B : Type 0} (test : Bool) (e : E) (k : Run S E B) (s : S) (b : B)
    → ((check test e >> k) s).0 ≡ ok b
    → (test ≡ true) × ((check test e >> k) s ≡ k s)
check-ok true e k s b h = (refl, refl)
check-ok false e k s b h = absurd (ground arith)
