-- ===== src/Common/Results.antt =====
-- Go's `(value, error)` pairs, and calls that change a state and may fail.
use Prim.Native.String.{String}
use mathlib.Core.Path.{◌≡◌}
use native.Mathlib.Omega.{arith}

-- `fmt.Errorf("...")`, `fmt.Errorf("...: %s", text)` and `fmt.Errorf("...: %w", err)`.
pub data Error : Type 0 where
  failure : String → Error
  about : String → String → Error
  wrapped : String → Error → Error

pub data Result {ℓ} (A : Type ℓ) : Type ℓ where
  ok : A → Result A
  err : Error → Result A

-- What was written before an error stays written.
abbrev pub Exec : Type 0 → Type 0 → Type 0
Exec S A = S → Result A × S

infixl 5 ◌>>=◌ ◌>>◌
abbrev pub ◌>>=◌ : {S A B : Type 0} → Exec S A → (A → Exec S B) → Exec S B
◌>>=◌ m f s = let (r, s') = m s in elim r [ ok a ↦ f a s' | err e ↦ (err e, s') ]

abbrev pub ◌>>◌ : {S A B : Type 0} → Exec S A → Exec S B → Exec S B
m >> k = m >>= λ _. k

abbrev pub pure : {S A : Type 0} → A → Exec S A
pure a s = (ok a, s)

abbrev pub fail : {S A : Type 0} → Error → Exec S A
fail e s = (err e, s)

-- `if err != nil { return fmt.Errorf("text: %w", err) }`
abbrev pub or_wrap : {S A : Type 0} → String → Exec S A → Exec S A
or_wrap text m s =
    let (r, s') = m s in elim r [ ok a ↦ (ok a, s') | err e ↦ (err (wrapped text e), s') ]

-- A first call that succeeds hands its value and its state on.
pub >>=-ok :
    {S A B : Type 0} (m : Exec S A) (f : A → Exec S B) (s : S) {a : A} {t : S}
    → m s ≡ (ok a, t)
    → (m >>= f) s ≡ f a t
>>=-ok m f s e = ground arith

-- A first call that fails is the end.
pub >>=-err :
    {S A B : Type 0} (m : Exec S A) (f : A → Exec S B) (s : S) {x : Error} {t : S}
    → m s ≡ (err x, t)
    → (m >>= f) s ≡ (err x, t)
>>=-err m f s e = ground arith

pub or_wrap-ok :
    {S A : Type 0} (text : String) (m : Exec S A) (s : S) {a : A} {t : S}
    → m s ≡ (ok a, t)
    → or_wrap text m s ≡ (ok a, t)
or_wrap-ok text m s e = ground arith
