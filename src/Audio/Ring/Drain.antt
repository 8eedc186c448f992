-- ===== src/Audio/Ring/Drain.antt =====
-- What `take` and a `Read` that does not wait deliver of the samples that the ring holds.

use sonospoof.Base.{
  ℕ, zero, suc, ◌+◌, ◌-◌, ◌≡◌, refl, ap, ap₂, sym, ◌∙◌, List, [], ◌∷◌, ◌++◌, arith, min, length,
  get_or, take, drop, replicate, u64, length-append, append-nil, ◌==◌, ==_iff, Bool-cases, inl, inr,
  length-take-min, length-replicate,
}
use sonospoof.Audio.Ring.{Ring, advance, take_out, read_now, pad}
use sonospoof.Audio.Ring.Fifo.{padded}
use sonospoof.Audio.Ring.Inv.{IsValid, pad-IsValid, take_out-IsValid}
use sonospoof.Audio.Ring.Refine.{contents, contents-advance, round}

-- `take` moves the oldest samples out, and touches no counter.
pub record Took (k : ℕ) (q : Ring) (out : List ℕ × Ring) : Type 0 where
  pub moved : out.0 ≡ take k (contents q)
  pub left : contents out.1 ≡ drop k (contents q)
  pub same_underrun : out.1.underrun ≡ q.underrun
  pub same_dropped : out.1.dropped ≡ q.dropped
  pub same_wake : out.1.wake ≡ q.wake

nothing_held : (q : Ring) → q.n ≡ 0 → contents q ≡ []
nothing_held q e = ap (round q.buf (length q.buf) q.r) e

pub take_out-Took : (k : ℕ) (q : Ring) → Took k q (take_out k q)
unfolding take_out advance
take_out-Took zero q = record {
  moved = refl;
  left = refl;
  same_underrun = refl;
  same_dropped = refl;
  same_wake = refl;
}
take_out-Took (suc k) q = elim (Bool-cases (q.n == 0)) [
  | inl none_held ↦
      let e = nothing_held q (ground arith) in
      rw none_held (record {
        moved = sym (ap (take (suc k)) e);
        left = e ∙ sym (ap (drop (suc k)) e);
        same_underrun = refl;
        same_dropped = refl;
        same_wake = refl;
      })
  | inr more ↦
      let e = contents-advance q (ground arith) in
      let t = take_out-Took k (advance q) in
      rw more (record {
        moved = ap (◌∷◌ (get_or q.buf q.r 0)) t.moved ∙ sym (ap (take (suc k)) e);
        left = t.left ∙ sym (ap (drop (suc k)) e);
        same_underrun = t.same_underrun;
        same_dropped = t.same_dropped;
        same_wake = t.same_wake;
      })
]

-- A read of a valid ring that does not wait delivers the oldest samples that are held, in order,
-- and silence after them; it counts the silence as underrun, drops nothing, fills its slice, and
-- keeps the invariant.
pub read_now_refines :
    (size : ℕ) (q : Ring)
    → IsValid q
    → let (f, q') = read_now size q in
      (f.dst ≡ padded size (contents q))
      × (f.real ≡ min size (length (contents q)))
      × (length f.dst ≡ size)
      × (contents q' ≡ drop size (contents q))
      × (q'.underrun ≡ u64 (q.underrun + (size - length (contents q))))
      × (q'.dropped ≡ q.dropped)
      × IsValid q'
unfolding read_now pad
read_now_refines size q v =
    let t = take_out-Took size q in
    let n = ap length t.moved ∙ length-take-min size (contents q) in
    let u = take_out-IsValid size v in
    let c : List ℕ = contents q in
    elim (Bool-cases (length (take_out size q).0 == size)) [
      | inl full ↦ rw full (
        t.moved
            ∙ sym (
                ap (λ k. take size c ++ replicate k 0) {x = size - length c} {y = 0} (ground arith)
                ∙ append-nil (take size c)),
        n,
        ground arith,
        t.left,
        omega (arith, t.same_underrun, (==_iff (length (take_out size q).0) size).0 full),
        t.same_dropped,
        u.0,
      )
      | inr short ↦ rw short (
        ap₂ (λ k xs. xs ++ replicate k 0) {x = size - length (take_out size q).0}
            {y = size - length c} (omega arith) t.moved,
        n,
        omega (
          arith,
          length-append (take_out size q).0 (replicate (size - length (take_out size q).0) 0),
          length-replicate {A = ℕ} (size - length (take_out size q).0) 0,
        ),
        t.left,
        omega (arith, t.same_underrun),
        t.same_dropped,
        pad-IsValid size (take_out size q).0 u.0,
      )
    ]
