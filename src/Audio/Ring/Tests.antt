-- ===== src/Audio/Ring/Tests.antt =====
-- A ring of four samples, by hand.
use sonospoof.Base.{
  ◌+◌, ◌-◌, ◌≡◌, refl, true, false, List, [], ◌∷◌, ◌++◌, arith, length, u64, min, drop,
}
use sonospoof.Audio.Ring.{
  Ring, write, write_all, write_one, make_room, store, take_out, advance, read_now, read_wait,
  read_loop, wait_for, pad, Event, written, woken, expired, returned,
}
use sonospoof.Audio.Ring.Fifo.{newest, overflow, padded}
use sonospoof.Audio.Ring.Inv.{IsValid}
use sonospoof.Audio.Ring.Refine.{contents, write_refines}
use sonospoof.Audio.Ring.Drain.{read_now_refines}
use sonospoof.Audio.Ring.Heard.{due}
use sonospoof.Audio.Ring.Blocking.{Delivers, read_wait-Delivers}
use sonospoof.Audio.Ring.WaitFor.{Waits, wait_for_lem}

-- Two samples, round the end of the buffer.
abbrev wrapped : Ring
wrapped = record {
  buf = 8 ∷ 0 ∷ 0 ∷ 7 ∷ [];
  r = 3;
  w = 1;
  n = 2;
  wake = false;
  underrun = 0;
  dropped = 0;
}

wrapped-IsValid : IsValid wrapped
wrapped-IsValid = record {
  room = omega arith;
  r_in = omega arith;
  held = omega arith;
  w_at = refl;
  dropped_fits = omega arith;
  underrun_fits = omega arith;
}

wrapped-contents : contents wrapped ≡ 7 ∷ 8 ∷ []
wrapped-contents = refl

-- A write of three drops the oldest.
write_refines_example :
    (contents (write wrapped (1 ∷ 2 ∷ 3 ∷ [])) ≡ newest 4 (contents wrapped ++ 1 ∷ 2 ∷ 3 ∷ []))
    × ((write wrapped (1 ∷ 2 ∷ 3 ∷ [])).dropped
        ≡ u64 (0 + overflow 4 (contents wrapped) (1 ∷ 2 ∷ 3 ∷ [])))
    × ((write wrapped (1 ∷ 2 ∷ 3 ∷ [])).wake ≡ true)
    × IsValid (write wrapped (1 ∷ 2 ∷ 3 ∷ []))
write_refines_example = write_refines (1 ∷ 2 ∷ 3 ∷ []) wrapped-IsValid

overflowing : contents (write wrapped (1 ∷ 2 ∷ 3 ∷ [])) ≡ 8 ∷ 1 ∷ 2 ∷ 3 ∷ []
unfolding write write_all write_one make_room store
overflowing = refl

read_now_refines_example :
    let (f, q') = read_now 3 wrapped in
    (f.dst ≡ padded 3 (contents wrapped))
    × (f.real ≡ min 3 2)
    × (length f.dst ≡ 3)
    × (contents q' ≡ drop 3 (contents wrapped))
    × (q'.underrun ≡ u64 (0 + (3 - 2)))
    × (q'.dropped ≡ 0)
    × IsValid q'
read_now_refines_example = read_now_refines 3 wrapped wrapped-IsValid

-- Two samples arrive while a read of five waits; then the deadline fires.
abbrev meanwhile : List Event
meanwhile = woken ∷ written (1 ∷ 2 ∷ []) ∷ woken ∷ expired ∷ []

read_wait-Delivers_example :
    Delivers
      (due 5 wrapped.wake (contents wrapped) meanwhile)
      meanwhile
      5
      []
      wrapped
      (read_wait meanwhile 5 wrapped)
read_wait-Delivers_example = read_wait-Delivers meanwhile 5 wrapped-IsValid tt (omega arith)

-- The fifth sample is missing at the deadline.
due_five : due 5 wrapped.wake (contents wrapped) meanwhile ≡ (7 ∷ 8 ∷ 1 ∷ 2 ∷ [], [])
due_five = refl

read_wait_five :
    (read_wait meanwhile 5 wrapped).0 ≡ returned (record { dst = 7 ∷ 8 ∷ 1 ∷ 2 ∷ 0 ∷ []; real = 4 })
unfolding read_wait read_loop take_out advance write write_all write_one make_room store pad
read_wait_five = refl

wait_for_lem_example : Waits meanwhile 4 wrapped (wait_for meanwhile 4 wrapped)
wait_for_lem_example = wait_for_lem meanwhile 4 wrapped tt
