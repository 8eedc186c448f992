-- ===== src/Base/Strings.antt =====
-- Go strings as the lists of their code points, with what the sources use of `strings`.
use Prim.Native.Char.{code}
use Prim.Native.String.{String}
use Prim.Native.Nat.{ℕ}
use mathlib.Core.Path.{◌≡◌, refl, ap, sym, ◌∙◌}
use mathlib.Core.Logic.{◌≢◌, ◌⊎◌, inl, inr}
use mathlib.Core.Bool.{Bool, true, false, true≢false, ◌&&◌, ◌||◌}
use mathlib.Core.Option.{Option, none, some, some-injective}
use mathlib.Core.List.{List, [], ◌∷◌, ◌++◌, append-nil}
use native.Mathlib.Omega.{arith}
use sonospoof.Base.Tests.{leb, ◌==◌, if◌then◌else◌, Bool-cases}
use sonospoof.Base.Members.{All}

abbrev pub Text : Type 0
Text = List ℕ

-- A literal.
abbrev pub codes : String → Text
codes String.[] = []
codes (String.◌∷◌ c s) = code c ∷ codes s

-- `s == t`
abbrev pub same : Text → Text → Bool
same [] [] = true
same [] (d ∷ t) = false
same (c ∷ s) [] = false
same (c ∷ s) (d ∷ t) = c == d && same s t

pub same→≡ : (s t : Text) → same s t ≡ true → s ≡ t
same→≡ [] [] h = refl
same→≡ [] (d ∷ t) h = cc
same→≡ (c ∷ s) [] h = cc
same→≡ (c ∷ s) (d ∷ t) h = ground (arith, same→≡ s t)

pub same_refl : (s : Text) → same s s ≡ true
same_refl [] = refl
same_refl (c ∷ s) = ground (arith, same_refl s)

pub ≢→same : (s t : Text) → s ≢ t → same s t ≡ false
≢→same s t h = ground (arith, same→≡ s t)

pub same→≢ : (s t : Text) → same s t ≡ false → s ≢ t
same→≢ s t h e = true≢false (sym (same_refl s) ∙ ap (same s) e ∙ h)

-- `strings.CutPrefix`
abbrev pub cut_prefix : Text → Text → Option Text
cut_prefix s [] = some s
cut_prefix [] (d ∷ p) = none
cut_prefix (c ∷ s) (d ∷ p) = if c == d then cut_prefix s p else none

pub cut_prefix-append : (p s : Text) → cut_prefix (p ++ s) p ≡ some s
cut_prefix-append [] s = refl
cut_prefix-append (c ∷ p) s = ground (arith, cut_prefix-append p s)

pub cut_prefix_found : (p s t : Text) → cut_prefix s p ≡ some t → s ≡ p ++ t
cut_prefix_found [] s t h = some-injective s t h
cut_prefix_found (d ∷ p) [] t h = cc
cut_prefix_found (d ∷ p) (c ∷ s) t h = ground (arith, cut_prefix_found p s t)

-- `strings.TrimPrefix`
abbrev pub trim_prefix : Text → Text → Text
trim_prefix s p = elim (cut_prefix s p) [ none ↦ s | some t ↦ t ]

-- `strings.Cut` at a separator of one character
abbrev pub cut : ℕ → Text → Option (Text × Text)
cut sep [] = none
cut sep (c ∷ s) =
    if c == sep
    then some ([], s)
    else elim (cut sep s) [ none ↦ none | some p ↦ some (c ∷ p.0, p.1) ]

-- `strings.Split`: the text up to the first separator, then the others.
abbrev first_part : ℕ → Text → Text × List Text
first_part sep [] = ([], [])
first_part sep (c ∷ s) =
    let rest = first_part sep s in if c == sep then ([], rest.0 ∷ rest.1) else (c ∷ rest.0, rest.1)

unfoldable pub split : ℕ → Text → List Text
split sep s = (first_part sep s).0 ∷ (first_part sep s).1

-- `strings.TrimLeft`, `strings.TrimRight` and `strings.Trim` with a set of characters
abbrev pub trim_left : (ℕ → Bool) → Text → Text
trim_left cutset [] = []
trim_left cutset (c ∷ s) = if cutset c then trim_left cutset s else c ∷ s

abbrev pub before_end : (ℕ → Bool) → ℕ → Text → Text
before_end cutset c [] = if cutset c then [] else c ∷ []
before_end cutset c (d ∷ t) = c ∷ d ∷ t

abbrev pub trim_right : (ℕ → Bool) → Text → Text
trim_right cutset [] = []
trim_right cutset (c ∷ s) = before_end cutset c (trim_right cutset s)

abbrev pub trim : (ℕ → Bool) → Text → Text
trim cutset s = trim_right cutset (trim_left cutset s)

-- `unicode.IsSpace`
abbrev pub is_space : ℕ → Bool
is_space c =
    (leb 9 c && leb c 13)
    || c == 32
    || c == 0x85
    || c == 0xa0
    || c == 0x1680
    || (leb 0x2000 c && leb c 0x200a)
    || c == 0x2028
    || c == 0x2029
    || c == 0x202f
    || c == 0x205f
    || c == 0x3000

-- `strings.Fields`: the field that is open at the head, then the others.
abbrev close : Text × List Text → List Text
close ([], fs) = fs
close (c ∷ f, fs) = (c ∷ f) ∷ fs

abbrev open_field : Text → Text × List Text
open_field [] = ([], [])
open_field (c ∷ s) =
    let rest = open_field s in if is_space c then ([], close rest) else (c ∷ rest.0, rest.1)

unfoldable pub fields : Text → List Text
fields s = close (open_field s)

-- `strings.Join`
abbrev pub join : Text → List Text → Text
join sep [] = []
join sep (s ∷ []) = s
join sep (s ∷ t ∷ ss) = s ++ (sep ++ join sep (t ∷ ss))

fields_two : fields (codes " a  bc ") ≡ codes "a" ∷ codes "bc" ∷ []
unfolding fields
fields_two = refl

split_three : split b',' (codes "a,,b") ≡ codes "a" ∷ [] ∷ codes "b" ∷ []
unfolding split
split_three = refl

-- Trimming keeps what holds of every character; what is left starts outside the set.
module _ {κ} (P : ℕ → Type κ) (cutset : ℕ → Bool) where
  pub All-trim_left : (s : Text) → All P s → All P (trim_left cutset s)
  All-trim_left [] p = tt
  All-trim_left (c ∷ s) (p, ps) = elim (Bool-cases (cutset c)) [
    | inl e ↦ rw e (All-trim_left s ps)
    | inr e ↦ rw e (p, ps)
  ]

  All-before_end : (c : ℕ) (s : Text) → P c → All P s → All P (before_end cutset c s)
  All-before_end c (d ∷ t) p ps = (p, ps)
  All-before_end c [] p ps = elim (Bool-cases (cutset c)) [ inl e ↦ rw e tt | inr e ↦ rw e (p, tt) ]

  pub All-trim_right : (s : Text) → All P s → All P (trim_right cutset s)
  All-trim_right [] p = tt
  All-trim_right (c ∷ s) (p, ps) = All-before_end c (trim_right cutset s) p (All-trim_right s ps)

first_stays :
    (cutset : ℕ → Bool) (c : ℕ) (s : Text)
    → cutset c ≡ false
    → (t : Text) × (before_end cutset c s ≡ c ∷ t)
first_stays cutset c [] e = ([], rw e refl)
first_stays cutset c (d ∷ s) e = (d ∷ s, refl)

pub trim-first :
    (cutset : ℕ → Bool) (s : Text)
    → (trim cutset s ≡ []) ⊎ ((c : ℕ) × (t : Text) × (trim cutset s ≡ c ∷ t) × (cutset c ≡ false))
trim-first cutset [] = inl refl
trim-first cutset (c ∷ s) = elim (Bool-cases (cutset c)) [
  | inl e ↦ rw e (trim-first cutset s)
  | inr e ↦
      let (t, stays) = first_stays cutset c (trim_right cutset s) e in inr (c, t, rw e stays, e)
]

-- Nothing to trim.
module _ (cutset : ℕ → Bool) where
  pub before_end_kept : (c : ℕ) (s : Text) → cutset c ≡ false → before_end cutset c s ≡ c ∷ s
  before_end_kept c [] e = rw e refl
  before_end_kept c (d ∷ s) e = refl

  pub trim_right_none : (s : Text) → All (λ c. cutset c ≡ false) s → trim_right cutset s ≡ s
  trim_right_none [] p = refl
  trim_right_none (c ∷ s) (p, ps) =
      ap (before_end cutset c) (trim_right_none s ps) ∙ before_end_kept c s p

  pub trim_none : (s : Text) → All (λ c. cutset c ≡ false) s → trim cutset s ≡ s
  trim_none [] p = refl
  trim_none (c ∷ s) (p, ps) = rw p (trim_right_none (c ∷ s) (p, ps))

fields_none : fields [] ≡ []
unfolding fields
fields_none = refl

-- A text that `fields` does not divide.
abbrev pub IsWord : Text → Type 0
IsWord w = (w ≢ []) × All (λ c. is_space c ≡ false) w

open_field-append :
    (w t : Text)
    → All (λ c. is_space c ≡ false) w
    → open_field (w ++ t) ≡ (w ++ (open_field t).0, (open_field t).1)
open_field-append [] t p = refl
open_field-append (c ∷ w) t (p, ps) =
    rw p (λ i. let rest = open_field-append w t ps i in (c ∷ rest.0, rest.1))

close_word : (w : Text) (ws : List Text) → w ≢ [] → close (w, ws) ≡ w ∷ ws
close_word [] ws h = absurd (h refl)
close_word (c ∷ w) ws h = refl

pub fields-append : (w t : Text) → IsWord w → fields (w ++ b' ' ∷ t) ≡ w ∷ fields t
unfolding fields
fields-append w t (some_left, p) =
    ap close (open_field-append w (b' ' ∷ t) p)
    ∙ ap (λ u. close (u, close (open_field t))) (append-nil w)
    ∙ close_word w (close (open_field t)) some_left

pub fields_word : (w : Text) → IsWord w → fields w ≡ w ∷ []
unfolding fields
fields_word w (some_left, p) =
    ap (λ u. close (open_field u)) (sym (append-nil w))
    ∙ ap close (open_field-append w [] p)
    ∙ ap (λ u. close (u, [])) (append-nil w)
    ∙ close_word w [] some_left

-- Words that are joined by spaces are the fields of the result.
pub fields-join : (ws : List Text) → All IsWord ws → fields (join (b' ' ∷ []) ws) ≡ ws
fields-join [] p = fields_none
fields-join (w ∷ []) (p, ps) = fields_word w p
fields-join (w ∷ v ∷ ws) (p, ps) =
    fields-append w (join (b' ' ∷ []) (v ∷ ws)) p ∙ ap (◌∷◌ w) (fields-join (v ∷ ws) ps)

pub cut-append :
    (sep : ℕ) (s t : Text) → All (λ c. (c == sep) ≡ false) s → cut sep (s ++ sep ∷ t) ≡ some (s, t)
cut-append sep [] t p = ground arith
cut-append sep (c ∷ s) t (p, ps) = ground (arith, cut-append sep s t ps)

-- An end that is trimmed whole, after a text of which nothing is.
pub trim_right-append :
    (cutset : ℕ → Bool) (s t : Text)
    → All (λ c. cutset c ≡ false) s
    → trim_right cutset t ≡ []
    → trim_right cutset (s ++ t) ≡ s
trim_right-append cutset [] t p e = e
trim_right-append cutset (c ∷ s) t (p, ps) e =
    ap (before_end cutset c) (trim_right-append cutset s t ps e) ∙ before_end_kept cutset c s p
