-- ===== src/Base/Sorting.antt =====
-- Go's order on strings, and `sort.Strings` and `sort.Slice` as an insertion into a sorted list.

use mathlib.Core.Path.{◌≡◌, refl, sym}
use mathlib.Core.Logic.{inl, inr, ◌≢◌}
use mathlib.Core.Bool.{Bool, true, false, ◌&&◌, ◌||◌}
use mathlib.Core.List.{List, [], ◌∷◌}
use native.Mathlib.Omega.{arith}
use sonospoof.Base.Tests.{ltb, ◌==◌, if◌then◌else◌, Bool-cases}
use sonospoof.Base.Strings.{Text}
use sonospoof.Base.Members.{Member, All, All-weaken, IsDistinct}

-- `s < t`
abbrev pub less : Text → Text → Bool
less [] [] = false
less [] (d ∷ t) = true
less (c ∷ s) [] = false
less (c ∷ s) (d ∷ t) = ltb c d || (c == d && less s t)

less-asym : (s t : Text) → less s t ≡ true → less t s ≡ false
less-asym [] [] h = refl
less-asym [] (d ∷ t) h = refl
less-asym (c ∷ s) [] h = cc
less-asym (c ∷ s) (d ∷ t) h = ground (arith, less-asym s t)

less-trans_not : (s t u : Text) → less t s ≡ false → less u t ≡ false → less u s ≡ false
less-trans_not [] [] [] h k = refl
less-trans_not (c ∷ s) [] [] h k = cc
less-trans_not s (d ∷ t) [] h k = cc
less-trans_not [] t (e ∷ u) h k = refl
less-trans_not (c ∷ s) [] (e ∷ u) h k = cc
less-trans_not (c ∷ s) (d ∷ t) (e ∷ u) h k = ground (arith, less-trans_not s t u)

module _ {ℓ} {A : Type ℓ} (key : A → Text) where
  unfoldable pub insert_by : A → List A → List A
  insert_by x [] = x ∷ []
  insert_by x (y ∷ ys) = if less (key y) (key x) then y ∷ insert_by x ys else x ∷ y ∷ ys

  -- Equal keys keep their order here; Go's sort does not promise that.
  unfoldable pub sort_by : List A → List A
  sort_by [] = []
  sort_by (x ∷ xs) = insert_by x (sort_by xs)

  -- No later element is below an earlier one.
  abbrev pub IsSorted : List A → Type ℓ
  IsSorted [] = Unit
  IsSorted (x ∷ xs) = All (λ y. less (key y) (key x) ≡ false) xs × IsSorted xs

  module _ {κ} (P : A → Type κ) where
    All-insert_by : (x : A) (ys : List A) → P x → All P ys → All P (insert_by x ys)
    unfolding insert_by
    All-insert_by x [] p ps = (p, tt)
    All-insert_by x (y ∷ ys) p (q, qs) = elim (Bool-cases (less (key y) (key x))) [
      | inl e ↦ rw e (q, All-insert_by x ys p qs)
      | inr e ↦ rw e (p, (q, qs))
    ]

    pub All-sort_by : (xs : List A) → All P xs → All P (sort_by xs)
    unfolding sort_by
    All-sort_by [] p = tt
    All-sort_by (x ∷ xs) (p, ps) = All-insert_by x (sort_by xs) p (All-sort_by xs ps)

  insert_by-IsSorted : (x : A) (ys : List A) → IsSorted ys → IsSorted (insert_by x ys)
  unfolding insert_by
  insert_by-IsSorted x [] h = (tt, tt)
  insert_by-IsSorted x (y ∷ ys) (h, hs) = elim (Bool-cases (less (key y) (key x))) [
    | inl e ↦ rw e (
      All-insert_by (λ z. less (key z) (key y) ≡ false) x ys (less-asym (key y) (key x) e) h,
      insert_by-IsSorted x ys hs,
    )
    | inr e ↦ rw e (
      (
        e,
        All-weaken {P = λ z. less (key z) (key y) ≡ false} {Q = λ z. less (key z) (key x) ≡ false}
            (λ z. less-trans_not (key x) (key y) (key z) e) ys h,
      ),
      (h, hs),
    )
  ]

  pub sort_by-IsSorted : (xs : List A) → IsSorted (sort_by xs)
  unfolding sort_by
  sort_by-IsSorted [] = tt
  sort_by-IsSorted (x ∷ xs) = insert_by-IsSorted x (sort_by xs) (sort_by-IsSorted xs)

  Member-insert_by_self : (x : A) (ys : List A) → Member x (insert_by x ys)
  unfolding insert_by
  Member-insert_by_self x [] = Member.here
  Member-insert_by_self x (y ∷ ys) = elim (Bool-cases (less (key y) (key x))) [
    | inl e ↦ rw e (Member.there (Member-insert_by_self x ys))
    | inr e ↦ rw e Member.here
  ]

  Member-insert_by : {z : A} (x : A) (ys : List A) → Member z ys → Member z (insert_by x ys)
  unfolding insert_by
  Member-insert_by x [] m = elim m [ ]
  Member-insert_by x (y ∷ ys) (Member.here) = elim (Bool-cases (less (key y) (key x))) [
    | inl e ↦ rw e Member.here
    | inr e ↦ rw e (Member.there Member.here)
  ]
  Member-insert_by x (y ∷ ys) (Member.there m) = elim (Bool-cases (less (key y) (key x))) [
    | inl e ↦ rw e (Member.there (Member-insert_by x ys m))
    | inr e ↦ rw e (Member.there (Member.there m))
  ]

  pub Member-sort_by : {z : A} (xs : List A) → Member z xs → Member z (sort_by xs)
  unfolding sort_by
  Member-sort_by [] m = elim m [ ]
  Member-sort_by (x ∷ xs) (Member.here) = Member-insert_by_self x (sort_by xs)
  Member-sort_by (x ∷ xs) (Member.there m) = Member-insert_by x (sort_by xs) (Member-sort_by xs m)

  module _ {κ} {B : Type κ} (other : A → B) where
    insert_by-IsDistinct :
        (x : A) (ys : List A)
        → All (λ y. other x ≢ other y) ys
        → IsDistinct other ys
        → IsDistinct other (insert_by x ys)
    unfolding insert_by
    insert_by-IsDistinct x [] h hs = (tt, tt)
    insert_by-IsDistinct x (y ∷ ys) (h, hs) (k, ks) = elim (Bool-cases (less (key y) (key x))) [
      | inl e ↦ rw e (
        All-insert_by (λ z. other y ≢ other z) x ys (λ q. h (sym q)) k,
        insert_by-IsDistinct x ys hs ks,
      )
      | inr e ↦ rw e ((h, hs), (k, ks))
    ]

    pub sort_by-IsDistinct : (xs : List A) → IsDistinct other xs → IsDistinct other (sort_by xs)
    unfolding sort_by
    sort_by-IsDistinct [] h = tt
    sort_by-IsDistinct (x ∷ xs) (h, hs) =
        insert_by-IsDistinct x (sort_by xs) (All-sort_by (λ y. other x ≢ other y) xs h)
          (sort_by-IsDistinct xs hs)
