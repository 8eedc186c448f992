-- ===== src/Audio/Ring/Refine.antt =====
-- The ring against the bounded queue of `Fifo`: what `Write`, `take` and `Read` do to the samples
-- that the ring holds.
use native.Mathlib.Nat.{mod-eq_of_lt, mod-eq-sub-mod, add-zero}
use sonospoof.Base.{
  ℕ, zero, suc, ◌+◌, ◌-◌, ◌%◌, ◌≤◌, ◌<◌, ◌≡◌, ◌≢◌, refl, ap, ap₂, sym, ◌∙◌, List, [], ◌∷◌, ◌++◌,
  arith, true, length, get_or, set, drop, dec_lt, length-set, get_or-set_self, get_or-set_ne, u64,
  length-append, append-nil, append_assoc, drop-append, drop-drop, length-drop, ◌==◌, Bool-cases,
  inl, inr,
}
use sonospoof.Audio.Ring.{Ring, make_room, store, write_one, write_all, write, advance}
use sonospoof.Audio.Ring.Fifo.{newest, overflow}
use sonospoof.Audio.Ring.Inv.{
  IsValid, write-IsValid, step_mod, make_room-IsValid, write_one-IsValid,
}

-- The `n` samples from index `i` on, round the end of a buffer of size `cap`.
abbrev pub round : List ℕ → ℕ → ℕ → ℕ → List ℕ
round buf cap i zero = []
round buf cap i (suc n) = get_or buf i 0 ∷ round buf cap ((i + 1) % cap) n

abbrev pub contents : Ring → List ℕ
contents q = round q.buf (length q.buf) q.r q.n

length-round : (buf : List ℕ) (cap i n : ℕ) → length (round buf cap i n) ≡ n
length-round buf cap i zero = refl
length-round buf cap i (suc n) = ap suc (length-round buf cap ((i + 1) % cap) n)

pub length-contents : (q : Ring) → length (contents q) ≡ q.n
length-contents q = length-round q.buf (length q.buf) q.r q.n

round_step :
    (buf : List ℕ) (cap i n : ℕ)
    → 0 < n
    → round buf cap i n ≡ get_or buf i 0 ∷ round buf cap ((i + 1) % cap) (n - 1)
round_step buf cap i zero h = absurd (omega arith)
round_step buf cap i (suc n) h =
    ap (λ k. get_or buf i 0 ∷ round buf cap ((i + 1) % cap) k) {x = n} {y = suc n - 1} (omega arith)

-- Taking the oldest sample leaves the rest.
pub contents-advance : (q : Ring) → 0 < q.n → contents q ≡ get_or q.buf q.r 0 ∷ contents (advance q)
unfolding advance
contents-advance q h = round_step q.buf (length q.buf) q.r q.n h

-- Fewer steps than the size of the buffer do not come back to the start.
no_return : (cap i k : ℕ) → i < cap → 0 < k → k < cap → (i + k) % cap ≢ i
no_return cap i k hi pos hk = elim (dec_lt (i + k) cap) [
  | yes p ↦ omega (arith, mod-eq_of_lt p)
  | no p ↦ omega (
    arith,
    mod-eq-sub-mod {n = i + k} {m = cap} (omega arith),
    mod-eq_of_lt {n = i + k - cap} {m = cap} (omega arith),
  )
]

-- A store right behind the samples appends to them.
round-set :
    (buf : List ℕ) (cap s n i w : ℕ)
    → cap ≤ length buf
    → i < cap
    → n < cap
    → w ≡ (i + n) % cap
    → round (set buf w s) cap i (suc n) ≡ round buf cap i n ++ s ∷ []
round-set buf cap s zero i w hb hi hn e =
    let at : w ≡ i = e ∙ rw add-zero (mod-eq_of_lt hi) in
    rw at (ap (λ x. x ∷ []) (get_or-set_self buf i s 0 (omega arith)))
round-set buf cap s (suc n) i w hb hi hn e =
    ap₂ ◌∷◌
      (get_or-set_ne buf w i s 0 (λ eq. no_return cap i (suc n) hi (omega arith) hn (sym e ∙ eq)))
      (round-set buf cap s n ((i + 1) % cap) w hb (omega arith) (omega arith) (
        e
        ∙ ap (λ k. k % cap) {x = i + suc n} {y = i + n + 1} (omega arith)
        ∙ sym (step_mod i n cap)))

pub contents-store :
    {q : Ring} (s : ℕ)
    → IsValid q
    → q.n < length q.buf
    → contents (store q s) ≡ contents q ++ s ∷ []
unfolding store
contents-store {q} s v h = rw length-set (
    ap (round (set q.buf q.w s) (length q.buf) q.r) {x = q.n + 1} {y = suc q.n} (omega arith)
    ∙ round-set q.buf (length q.buf) s q.n q.r q.w (omega arith) v.r_in h v.w_at)

pub contents-make_room :
    {q : Ring} → IsValid q → contents (make_room q) ≡ drop (q.n + 1 - length q.buf) (contents q)
unfolding make_room advance
contents-make_room {q} v = elim (Bool-cases (q.n == length q.buf)) [
  | inl full ↦ rw full (
      sym (
        ap (λ k. drop k (contents q)) {x = q.n + 1 - length q.buf} {y = 1} (ground arith)
        ∙ ap (drop 1) (contents-advance q (ground arith))))
  | inr free ↦
      rw free (ap (λ k. drop k (contents q)) {x = 0} {y = q.n + 1 - length q.buf} (ground arith))
]

newest-append :
    (cap : ℕ) (xs : List ℕ) (s : ℕ)
    → 0 < cap
    → drop (length xs + 1 - cap) xs ++ s ∷ [] ≡ newest cap (xs ++ s ∷ [])
newest-append cap xs s h =
    sym (drop-append (length xs + 1 - cap) xs (s ∷ []) (omega arith))
    ∙ ap (λ k. drop k (xs ++ s ∷ [])) {x = length xs + 1 - cap} {y = length (xs ++ s ∷ []) - cap}
        (omega (arith, length-append xs (s ∷ [])))

-- What a bounded queue has forgotten makes no difference later.
newest-newest :
    (cap : ℕ) (xs ys : List ℕ) → newest cap (newest cap xs ++ ys) ≡ newest cap (xs ++ ys)
newest-newest cap xs ys =
    let old : ℕ = length xs - cap in
    let more : ℕ = length (drop old xs ++ ys) - cap in
    ap (drop more) (sym (drop-append old xs ys (omega arith)))
    ∙ drop-drop more old (xs ++ ys)
    ∙ ap (λ k. drop k (xs ++ ys)) {x = old + more} {y = length (xs ++ ys) - cap}
        (omega (arith, length-append xs ys, length-append (drop old xs) ys, length-drop old xs))

-- One sample written keeps the newest of what is held and it.
pub contents-write_one :
    {q : Ring} (s : ℕ)
    → IsValid q
    → contents (write_one q s) ≡ newest (length q.buf) (contents q ++ s ∷ [])
unfolding write_one
contents-write_one {q} s v =
    let (u, free, same) = make_room-IsValid v in
    contents-store s u free
    ∙ ap (λ xs. xs ++ s ∷ [])
        (contents-make_room v
          ∙ ap (λ k. drop (k + 1 - length q.buf) (contents q)) (sym (length-contents q)))
    ∙ newest-append (length q.buf) (contents q) s v.room

dropped-write_one :
    (q : Ring) (s : ℕ)
    → IsValid q
    → (write_one q s).dropped ≡ u64 (q.dropped + (q.n + 1 - length q.buf))
unfolding write_one make_room store
dropped-write_one q s v = ground arith

pub contents-write_all :
    (q : Ring) (samples : List ℕ)
    → IsValid q
    → contents (write_all q samples) ≡ newest (length q.buf) (contents q ++ samples)
unfolding write_all
contents-write_all q [] v = sym (
    ap (newest (length q.buf)) (append-nil (contents q))
    ∙ ap (λ k. drop k (contents q)) {x = length (contents q) - length q.buf} {y = 0}
        (omega (arith, length-contents q)))
contents-write_all q (s ∷ samples) v =
    let (u, same) = write_one-IsValid s v in
    contents-write_all (write_one q s) samples u
    ∙ ap₂ (λ cap xs. newest cap (xs ++ samples)) same (contents-write_one s v)
    ∙ newest-newest (length q.buf) (contents q ++ s ∷ []) samples
    ∙ ap (newest (length q.buf)) (append_assoc (contents q) (s ∷ []) samples)

pub dropped-write_all :
    (q : Ring) (samples : List ℕ)
    → IsValid q
    → (write_all q samples).dropped ≡ u64 (q.dropped + overflow (length q.buf) (contents q) samples)
unfolding write_all
dropped-write_all q [] v = omega (arith, length-contents q)
dropped-write_all q (s ∷ samples) v =
    let (u, same) = write_one-IsValid s v in
    let size : length (newest (length q.buf) (contents q ++ s ∷ []))
        ≡ length (contents (write_one q s)) =
      ap length (sym (contents-write_one s v)) in
    omega (
      arith,
      dropped-write_all (write_one q s) samples u,
      same,
      dropped-write_one q s v,
      size,
      length-contents q,
      length-append (contents q) (s ∷ []),
      length-drop (length (contents q ++ s ∷ []) - length q.buf) (contents q ++ s ∷ []),
    )

-- A write to a valid ring keeps the newest samples that fit, counts the others as dropped, signals
-- the reader, and keeps the invariant.
pub write_refines :
    {q : Ring} (samples : List ℕ)
    → IsValid q
    → (contents (write q samples) ≡ newest (length q.buf) (contents q ++ samples))
      × ((write q samples).dropped ≡ u64 (q.dropped + overflow (length q.buf) (contents q) samples))
      × ((write q samples).wake ≡ true)
      × IsValid (write q samples)
unfolding write
write_refines {q} samples v = (
  contents-write_all q samples v,
  dropped-write_all q samples v,
  refl,
  (write-IsValid samples v).0,
)
