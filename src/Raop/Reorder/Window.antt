-- ===== src/Raop/Reorder/Window.antt =====
-- Positions in the 16-bit sequence space, and the order of what has been emitted.
use sonospoof.Base.{ℕ, ◌+◌, ◌≤◌, ◌<◌, ◌^◌, ◌≡◌, ◌≢◌, List, [], ◌∷◌, ◌++◌, arith, u16, sub16}

-- One step on, everything but the position left is one step nearer.
pub sub16-suc :
    (k next : ℕ)
    → k < 2 ^ 16
    → next < 2 ^ 16
    → k ≢ next
    → sub16 k (u16 (next + 1)) + 1 ≡ sub16 k next
sub16-suc k next hk hn ne = omega arith

-- Of two numbers in the half space ahead of `next`, the nearer one sees the other ahead of it.
pub sub16_between :
    (k best next : ℕ)
    → k < 2 ^ 16
    → best < 2 ^ 16
    → next < 2 ^ 16
    → sub16 best next ≤ sub16 k next
    → sub16 k best + sub16 best next ≡ sub16 k next
sub16_between k best next hk hb hn h = omega arith

pub u16-add-sub16 :
    (n k next : ℕ) → k < 2 ^ 16 → next < 2 ^ 16 → u16 n ≡ next → u16 (n + sub16 k next) ≡ k
u16-add-sub16 n k next hk hn e = omega arith

module _ {A : Type 0} (Sent : ℕ → A → Type 0) where
  -- The packets stand at growing positions from `n` on, all before `m`: positions are not
  -- truncated, and a packet is one that was sent under its position's 16 bits.
  abbrev pub InOrder : ℕ → List A → ℕ → Type 0
  InOrder n [] m = n ≤ m
  InOrder n (x ∷ xs) m = (p : ℕ) × (n ≤ p) × Sent (u16 p) x × InOrder (p + 1) xs m

  pub InOrder-append :
      (n k m : ℕ) (xs ys : List A) → InOrder n xs k → InOrder k ys m → InOrder n (xs ++ ys) m
  InOrder-append n k m [] ys h g = InOrder-earlier n k m ys h g
    where
      InOrder-earlier : (n k m : ℕ) (ys : List A) → n ≤ k → InOrder k ys m → InOrder n ys m
      InOrder-earlier n k m [] h g = omega arith
      InOrder-earlier n k m (y ∷ ys) h (p, le, s, r) = (p, omega arith, s, r)
  InOrder-append n k m (x ∷ xs) ys (p, le, s, r) g =
      (p, le, s, InOrder-append (p + 1) k m xs ys r g)

  pub InOrder-later : (n k m : ℕ) (xs : List A) → InOrder n xs k → k ≤ m → InOrder n xs m
  InOrder-later n k m [] h le = omega arith
  InOrder-later n k m (x ∷ xs) (p, pos, s, r) le = (p, pos, s, InOrder-later (p + 1) k m xs r le)
