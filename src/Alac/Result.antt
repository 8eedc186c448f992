-- ===== src/Alac/Result.antt =====
-- What a step of the decoder ends in. An index out of range stops the program: it is `panic`.

-- The error values of decoder.go; `bad_depth` is the one that `Decode` makes itself.
pub data Error : Type 0 where
  truncated corrupt_run bad_element bad_shift frame_too_long bad_depth : Error

pub data Result {ℓ} (A : Type ℓ) : Type ℓ where
  panic : Result A
  err : Error → Result A
  ok : A → Result A

-- Go's `if err != nil { return err }`, and the end of the program.
infixl 5 ◌>>=◌
abbrev pub ◌>>=◌ {ℓ μ} : {A : Type ℓ} {B : Type μ} → Result A → (A → Result B) → Result B
panic >>= next = panic
err e >>= next = err e
ok a >>= next = next a

-- A property of the value, where there is one.
abbrev pub Yields {ℓ κ} : {A : Type ℓ} → (A → Type κ) → Result A → Type κ
Yields P (ok a) = P a
Yields P (err e) = Unit
Yields P panic = Unit

pub >>=-Yields {ℓ κ μ ν} :
    {A : Type ℓ} {B : Type μ} (P : A → Type κ) (Q : B → Type ν) (m : Result A) (f : A → Result B)
    → Yields P m
    → ((a : A) → P a → Yields Q (f a))
    → Yields Q (m >>= f)
>>=-Yields P Q (ok a) f p h = h a p
>>=-Yields P Q (err e) f p h = tt
>>=-Yields P Q panic f p h = tt

pub Yields-any {ℓ} : {A : Type ℓ} (m : Result A) → Yields (λ a. Unit {0}) m
Yields-any (ok a) = tt
Yields-any (err e) = tt
Yields-any panic = tt
