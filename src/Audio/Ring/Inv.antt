-- ===== src/Audio/Ring/Inv.antt =====
-- The representation invariant of the ring, and that every method keeps it.
use sonospoof.Base.{
  ℕ, zero, suc, ◌+◌, ◌-◌, ◌%◌, ◌^◌, ◌≤◌, ◌<◌, ◌≡◌, refl, ap, sym, ◌∙◌, List, [], ◌∷◌, some, arith,
  length, length-set, length-replicate,
}
use native.Mathlib.Nat.{mod-add-mod}
use sonospoof.Audio.Ring.{
  Ring, new_ring, make_room, store, write_one, write_all, advance, take_out, reset, write, read_now,
  pad,
}

-- The indices lie in the buffer, the write index is `n` places after the read index, and the
-- counters are uint64.
pub record IsValid (q : Ring) : Type 0 where
  pub room : 0 < length q.buf
  pub r_in : q.r < length q.buf
  pub held : q.n ≤ length q.buf
  pub w_at : q.w ≡ (q.r + q.n) % length q.buf
  pub dropped_fits : q.dropped < 2 ^ 64
  pub underrun_fits : q.underrun < 2 ^ 64

pub new_ring-IsValid :
    (capacity : ℕ) {q : Ring} → new_ring capacity ≡ some q → IsValid q × (length q.buf ≡ capacity)
unfolding new_ring
new_ring-IsValid capacity e = ground (arith, length-replicate {A = ℕ} capacity 0)

-- One step round the ring.
pub step_mod : (r n cap : ℕ) → ((r + 1) % cap + n) % cap ≡ (r + n + 1) % cap
step_mod r n cap = rw mod-add-mod (ap (λ k. k % cap) {x = r + 1 + n} {y = r + n + 1} (omega arith))

pub advance-IsValid : {q : Ring} → IsValid q → 0 < q.n → IsValid (advance q)
unfolding advance
advance-IsValid {q} v h = record {
  room = v.room;
  r_in = omega (arith, v.room);
  held = omega (arith, v.held);
  dropped_fits = v.dropped_fits;
  underrun_fits = v.underrun_fits;
  w_at =
      v.w_at
      ∙ ap (λ k. k % length q.buf) {x = q.r + q.n} {y = q.r + (q.n - 1) + 1} (omega arith)
      ∙ sym (step_mod q.r (q.n - 1) (length q.buf));
}

pub store-IsValid : {q : Ring} (s : ℕ) → IsValid q → q.n < length q.buf → IsValid (store q s)
unfolding store
store-IsValid {q} s v h = ground (arith, length-set q.buf q.w s, step_w)
  where
    step_w : (q.w + 1) % length q.buf ≡ (q.r + (q.n + 1)) % length q.buf
    step_w =
        rw (v.w_at, mod-add-mod)
          (ap (λ k. k % length q.buf) {x = q.r + q.n + 1} {y = q.r + (q.n + 1)} (omega arith))

pub make_room-IsValid :
    {q : Ring}
    → IsValid q
    → IsValid (make_room q)
      × ((make_room q).n < length (make_room q).buf)
      × (length (make_room q).buf ≡ length q.buf)
unfolding make_room advance
make_room-IsValid {q} v = ground (arith, advance-IsValid v)

pub write_one-IsValid :
    {q : Ring} (s : ℕ)
    → IsValid q
    → IsValid (write_one q s) × (length (write_one q s).buf ≡ length q.buf)
unfolding write_one store
write_one-IsValid {q} s v =
    let (u, free, same) = make_room-IsValid v in
    (store-IsValid s u free, length-set (make_room q).buf (make_room q).w s ∙ same)

pub write_all-IsValid :
    {q : Ring} (samples : List ℕ)
    → IsValid q
    → IsValid (write_all q samples) × (length (write_all q samples).buf ≡ length q.buf)
unfolding write_all
write_all-IsValid [] v = (v, refl)
write_all-IsValid {q} (s ∷ samples) v =
    let one = write_one-IsValid s v in
    let (all, same) = write_all-IsValid {q = write_one q s} samples one.0 in (all, same ∙ one.1)

pub take_out-IsValid :
    {q : Ring} (k : ℕ)
    → IsValid q
    → IsValid (take_out k q).1 × (length (take_out k q).1.buf ≡ length q.buf)
unfolding take_out advance
take_out-IsValid zero v = (v, refl)
take_out-IsValid {q} (suc k) v =
    ground (arith, advance-IsValid v, take_out-IsValid {q = advance q} k)

pub reset-IsValid : {q : Ring} → IsValid q → IsValid (reset q)
unfolding reset
reset-IsValid v = ground arith

pub write-IsValid :
    {q : Ring} (samples : List ℕ)
    → IsValid q
    → IsValid (write q samples) × (length (write q samples).buf ≡ length q.buf)
unfolding write
write-IsValid {q} samples v = ground (arith, write_all-IsValid samples v)

pub pad-IsValid : (size : ℕ) (got : List ℕ) {q : Ring} → IsValid q → IsValid (pad size got q).1
unfolding pad
pad-IsValid size got v = ground arith

pub read_now-IsValid : {q : Ring} (size : ℕ) → IsValid q → IsValid (read_now size q).1
unfolding read_now
read_now-IsValid {q} size v =
    ground (
      arith,
      take_out-IsValid size v,
      pad-IsValid size (take_out size q).0 {q = (take_out size q).1},
    )
