-- ===== src/Audio/Ring/Blocking.antt =====
-- `Read` with a positive wait, against every sequence of what can happen meanwhile.
use sonospoof.Base.{
  ℕ, ◌+◌, ◌-◌, ◌≤◌, ◌≡◌, refl, ap, ap₂, sym, subst, ◌∙◌, ◌<◌, true, false, leb, take, List, [], ◌∷◌,
  ◌++◌, arith, length, drop, replicate, u64, length-append, append-nil, append_assoc, ◌==◌,
  Bool-cases, if_true, if_false, inl, inr, length-take-min,
}
use sonospoof.Audio.Ring.{
  Ring, write, write_one, write_all, make_room, store, take_out, pad, Filled, Event, written,
  flushed, woken, expired, Outcome, returned, read_loop, read_wait,
}
use sonospoof.Audio.Ring.Inv.{IsValid, write-IsValid, take_out-IsValid, pad-IsValid}
use sonospoof.Audio.Ring.Refine.{contents, length-contents, write_refines}
use sonospoof.Audio.Ring.Drain.{take_out-Took}
use sonospoof.Audio.Ring.Heard.{
  Fires, arrivals, heard, due, on_its_way, heard_silent, heard_short, heard_full, take_out-order,
  order_after, on_its_way-short,
}

-- A read that has returned: in the slice are the samples that are due, silence only follows them,
-- and no sample was lost, repeated or moved: with what the ring still holds, and what comes after
-- the return, it is what was there and what arrived.
pub record Delivers (due_now : List ℕ × List ℕ) (es : List Event) (size : ℕ) (got : List ℕ)
    (q : Ring) (out : Outcome Filled × Ring) : Type 0 where
  pub filled : Filled
  pub after : Ring
  pub returns : out ≡ (returned filled, after)
  pub slice : filled.dst ≡ due_now.0 ++ replicate (size - length due_now.0) 0
  pub real : filled.real ≡ length due_now.0
  pub fits : length due_now.0 ≤ size
  pub in_order : due_now.0 ++ (contents after ++ due_now.1) ≡ got ++ (contents q ++ arrivals es)
  pub silence : after.underrun ≡ u64 (q.underrun + (size - length due_now.0))
  pub valid : IsValid after

-- A later state of the same read, with the same samples on their way.
Delivers-shift :
    {due_now due_later : List ℕ × List ℕ} {es later_es : List Event} {size : ℕ} {got more : List ℕ}
    {q later_q : Ring} {out rest : Outcome Filled × Ring}
    → out ≡ rest
    → due_later ≡ due_now
    → more ++ (contents later_q ++ arrivals later_es) ≡ got ++ (contents q ++ arrivals es)
    → later_q.underrun ≡ q.underrun
    → Delivers due_later later_es size more later_q rest
    → Delivers due_now es size got q out
Delivers-shift {due_later = due_later} {es = es} {size = size} {got = got} {q = q} {out = out}
      same_out same_due same_samples same_count d =
    subst (λ p. Delivers p es size got q out) same_due
      (record {
        filled = d.filled;
        after = d.after;
        returns = same_out ∙ d.returns;
        slice = d.slice;
        real = d.real;
        fits = d.fits;
        in_order = d.in_order ∙ same_samples;
        silence = d.silence ∙ ap (λ k. u64 (k + (size - length due_later.0))) same_count;
        valid = d.valid;
      })

-- A take that fills the slice ends the read.
full-Delivers :
    (es : List Event) (size k : ℕ) (got : List ℕ) (p : Ring)
    → IsValid p
    → length got + k ≡ size
    → length (got ++ (take_out k p).0) ≡ size
    → let all = got ++ (take_out k p).0 in
      Delivers
        (got ++ take k (contents p), arrivals es)
        es
        size
        got
        p
        (returned (record { dst = all; real = length all }), (take_out k p).1)
full-Delivers es size k got p v room full =
    let t = take_out-Took k p in
    let more : List ℕ = (take_out k p).0 in
    let q' : Ring = (take_out k p).1 in
    let whole : size - length (got ++ more) ≡ 0 = omega arith in
    subst
      (λ m.
        Delivers (got ++ m, arrivals es) es size got p
          (returned (record { dst = got ++ more; real = length (got ++ more) }), q'))
      t.moved
      (record {
        filled = record { dst = got ++ more; real = length (got ++ more) };
        after = q';
        returns = refl;
        slice = sym (ap (λ k. (got ++ more) ++ replicate k 0) whole ∙ append-nil (got ++ more));
        real = refl;
        fits = omega arith;
        in_order = order_after got p k es;
        silence = omega (arith, t.same_underrun, whole);
        valid = (take_out-IsValid k v).0;
      })

write_fits :
    {q : Ring} (xs : List ℕ)
    → IsValid q
    → q.n + length xs ≤ length q.buf
    → contents (write q xs) ≡ contents q ++ xs
write_fits {q} xs v h =
    (write_refines xs v).0
    ∙ ap (λ k. drop k (contents q ++ xs)) {x = length (contents q ++ xs) - length q.buf} {y = 0}
        (omega (arith, length-append (contents q) xs, length-contents q))

underrun-write_all : (q : Ring) (xs : List ℕ) → (write_all q xs).underrun ≡ q.underrun
unfolding write_all write_one make_room store
underrun-write_all q [] = refl
underrun-write_all q (x ∷ xs) = underrun-write_all (write_one q x) xs ∙ ground arith

underrun-write : (q : Ring) (xs : List ℕ) → (write q xs).underrun ≡ q.underrun
unfolding write
underrun-write q xs = underrun-write_all q xs

wake-write : (q : Ring) (xs : List ℕ) → (write q xs).wake ≡ true
unfolding write
wake-write q xs = refl

no_signal-IsValid : {q : Ring} → IsValid q → IsValid (record q { wake = false })
no_signal-IsValid v = ground arith

-- The samples that are counted after a take.
room_after :
    (k : ℕ) {q : Ring} (es : List Event)
    → IsValid q
    → q.n + length (arrivals es) ≤ length q.buf
    → (take_out k q).1.n + length (arrivals es) ≤ length (take_out k q).1.buf
room_after k {q} es v h =
    let q' : Ring = (take_out k q).1 in
    let counted = ap length (take_out-order k q) in
    omega (
      arith,
      (take_out-IsValid k v).1,
      counted,
      length-append (take_out k q).0 (contents q'),
      length-contents q,
      length-contents q',
    )

read_loop-Delivers :
    (es : List Event) (size : ℕ) (got : List ℕ) (q : Ring)
    → IsValid q
    → length got ≤ size
    → Fires es
    → q.n + length (arrivals es) ≤ length q.buf
    → Delivers (on_its_way size got q es) es size got q (read_loop es size got q)
unfolding read_loop
read_loop-Delivers [] size got q v g f h = absurd f
read_loop-Delivers (written xs ∷ es) size got q v g f h =
    let (u, same) = write-IsValid xs v in
    let e = write_fits xs v (omega (arith, length-append xs (arrivals es))) in
    let n = sym (length-contents (write q xs)) ∙ ap length e ∙ length-append (contents q) xs in
    let hears : heard (size - length got) (write q xs).wake (contents (write q xs)) es
        ≡ heard (size - length got) true (contents q ++ xs) es =
      ap₂ (λ w c. heard (size - length got) w c es) (wake-write q xs) e in
    Delivers-shift refl (ap (λ (p : List ℕ × List ℕ). (got ++ p.0, p.1)) hears)
      (ap (λ c. got ++ (c ++ arrivals es)) e
        ∙ ap (◌++◌ got) (append_assoc (contents q) xs (arrivals es)))
      (underrun-write q xs)
      (read_loop-Delivers es size got (write q xs) u g f
        (omega (arith, n, same, length-contents q, length-append xs (arrivals es))))
read_loop-Delivers (flushed ∷ es) size got q v g f h = absurd f
read_loop-Delivers (woken ∷ es) size got q v g f h =
    let quiet : Ring = record q { wake = false } in
    let k : ℕ = size - length got in
    let more : List ℕ = (take_out k quiet).0 in
    let q' : Ring = (take_out k quiet).1 in
    let t = take_out-Took k quiet in
    let with_got : List ℕ × List ℕ → List ℕ × List ℕ = λ p. (got ++ p.0, p.1) in
    let len_all = length-append got more in
    let len_more = ap length t.moved ∙ length-take-min k (contents q) in
    elim (Bool-cases q.wake) [
      | inr silent ↦
          Delivers-shift (if_false _ _ silent)
            (ap with_got (heard_silent k q.wake (contents q) es silent)) refl refl
            (read_loop-Delivers es size got q v g f h)
      | inl signal ↦ elim (Bool-cases (length (got ++ more) == size)) [
        | inr short ↦
            let few : length (contents q) < k = ground arith in
            Delivers-shift (if_true _ _ signal ∙ if_false _ _ short)
              (on_its_way-short size k got quiet es (omega arith) few
                ∙ ap with_got (heard_short k q.wake (contents q) es signal few))
              (order_after got quiet k es) t.same_underrun
              (read_loop-Delivers es size (got ++ more) q'
                (take_out-IsValid k (no_signal-IsValid v)).0 (omega arith) f
                (room_after k es (no_signal-IsValid v) h))
        | inl full ↦
            let enough : k ≤ length (contents q) = ground arith in
            Delivers-shift (if_true _ _ signal ∙ if_true _ _ full)
              (ap with_got (heard_full k q.wake (contents q) es signal enough)) refl refl
              (full-Delivers es size k got quiet (no_signal-IsValid v) (omega arith) (ground arith))
      ]
    ]
read_loop-Delivers (expired ∷ es) size got q v g f h =
    Delivers-shift {due_later = (got, [])} {later_es = expired ∷ es} {more = got} {later_q = q} refl
      (ap (λ xs. (xs, [])) (sym (append-nil got))) refl refl
      (record {
        filled = (pad size got q).0;
        after = (pad size got q).1;
        returns = refl;
        slice = unfold pad in refl;
        real = unfold pad in refl;
        fits = g;
        in_order = unfold pad in refl;
        silence = unfold pad in refl;
        valid = pad-IsValid size got v;
      })

-- A read of a valid ring that waits returns when its deadline fires at the latest, whatever is
-- written and however often it is woken before, if nobody empties the ring and what arrives still
-- fits in it. It delivers the oldest samples of what the ring held and, unless these fill the
-- slice, of what a signal then told of, in order and as soon as the slice is full; silence follows
-- only for what is missing at the deadline, and is counted.
pub read_wait-Delivers :
    (es : List Event) (size : ℕ) {q : Ring}
    → IsValid q
    → Fires es
    → q.n + length (arrivals es) ≤ length q.buf
    → Delivers (due size q.wake (contents q) es) es size [] q (read_wait es size q)
unfolding read_wait
read_wait-Delivers es size {q} v f h =
    let t = take_out-Took size q in
    let got : List ℕ = (take_out size q).0 in
    let q' : Ring = (take_out size q).1 in
    let len_got = ap length t.moved ∙ length-take-min size (contents q) in
    elim (Bool-cases (length got == size)) [
      | inr short ↦
          let few : length (contents q) < size = ground arith in
          Delivers-shift (if_false _ _ short)
            (on_its_way-short size size [] q es (omega arith) few
              ∙ sym (if_false {b = leb size (length (contents q))} _ _ (ground arith)))
            (order_after [] q size es) t.same_underrun
            (read_loop-Delivers es size got q' (take_out-IsValid size v).0 (omega arith) f
              (room_after size es v h))
      | inl full ↦
          Delivers-shift (if_true _ _ full)
            (sym (if_true {b = leb size (length (contents q))} _ _ (ground arith))) refl refl
            (full-Delivers es size size [] q v (omega arith) (ground arith))
    ]
