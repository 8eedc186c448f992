-- ===== src/Base/Members.antt =====
-- Membership in a list by position, and a property of every element.
use Prim.Native.Nat.{ℕ, zero, suc}
use mathlib.Core.Logic.{◌⊎◌, inl, inr, ◌≢◌}
use mathlib.Core.List.{List, [], ◌∷◌, ◌++◌}
use sonospoof.Base.Lists.{take}

module _ {ℓ} {A : Type ℓ} where
  pub data Member (x : A) : List A → Type ℓ where
    here : {xs : List A} → Member x (x ∷ xs)
    there : {y : A} {xs : List A} → Member x xs → Member x (y ∷ xs)

  pub Member-append-left : {x : A} {xs : List A} (ys : List A) → Member x xs → Member x (xs ++ ys)
  Member-append-left ys (Member.here) = Member.here
  Member-append-left ys (Member.there m) = Member.there (Member-append-left ys m)

  pub Member-append-right : {x : A} (xs : List A) {ys : List A} → Member x ys → Member x (xs ++ ys)
  Member-append-right [] m = m
  Member-append-right (y ∷ xs) m = Member.there (Member-append-right xs m)

  pub Member-append :
      {x : A} (xs : List A) {ys : List A} → Member x (xs ++ ys) → Member x xs ⊎ Member x ys
  Member-append [] m = inr m
  Member-append (y ∷ xs) (Member.here) = inl Member.here
  Member-append (y ∷ xs) (Member.there m) = elim (Member-append xs m) [
    | inl l ↦ inl (Member.there l)
    | inr r ↦ inr r
  ]

module _ {ℓ κ} {A : Type ℓ} (P : A → Type κ) where
  abbrev pub All : List A → Type κ
  All [] = Unit
  All (x ∷ xs) = P x × All xs

  pub All-append : (xs ys : List A) → All xs → All ys → All (xs ++ ys)
  All-append [] ys p q = q
  All-append (x ∷ xs) ys (p, ps) q = (p, All-append xs ys ps q)

  pub All-Member : {x : A} {xs : List A} → Member x xs → All xs → P x
  All-Member (Member.here) (p, ps) = p
  All-Member (Member.there m) (p, ps) = All-Member m ps

pub All-weaken {ℓ κ μ} :
    {A : Type ℓ} {P : A → Type κ} {Q : A → Type μ}
    → ((x : A) → P x → Q x)
    → (xs : List A) → All P xs
    → All Q xs
All-weaken f [] p = tt
All-weaken f (x ∷ xs) (p, ps) = (f x p, All-weaken f xs ps)

-- No two elements share a key.
module _ {ℓ κ} {A : Type ℓ} {B : Type κ} (key : A → B) where
  abbrev pub IsDistinct : List A → Type κ
  IsDistinct [] = Unit
  IsDistinct (x ∷ xs) = All (λ y. key x ≢ key y) xs × IsDistinct xs

  pub append-IsDistinct :
      (xs ys : List A)
      → IsDistinct xs
      → IsDistinct ys
      → All (λ x. All (λ y. key x ≢ key y) ys) xs
      → IsDistinct (xs ++ ys)
  append-IsDistinct [] ys h k apart = k
  append-IsDistinct (x ∷ xs) ys (h, hs) k (a, apart) =
      (All-append (λ y. key x ≢ key y) xs ys h a, append-IsDistinct xs ys hs k apart)

pub All-take {ℓ κ} :
    {A : Type ℓ} (P : A → Type κ) (n : ℕ) (xs : List A) → All P xs → All P (take n xs)
All-take P zero xs p = tt
All-take P (suc n) [] p = tt
All-take P (suc n) (x ∷ xs) (p, ps) = (p, All-take P n xs ps)
