-- ===== src/Raop/Reorder/Tests.antt =====
-- Runs of the resequencer by hand. A packet is ten times its number.
use sonospoof.Base.{ℕ, ◌*◌, ◌≡◌, refl, true, false, List, [], ◌∷◌, none, some, arith}
use sonospoof.Raop.Reorder.{
  Resequencer, push, start, notice, release, drain_all, drain, request_missing, closest, consider,
  skip_to_next_pending,
}
use sonospoof.Raop.Reorder.Pending.{lookup, insert, erase}
use sonospoof.Raop.Reorder.Inv.{Holds, IsValid}
use sonospoof.Raop.Reorder.Push.{Emits, push-Emits}
use sonospoof.Raop.Reorder.Requests.{asked_once}
use sonospoof.Raop.Reorder.Stream.{
  run, Plays, run-Plays, AllSent, Consecutive, lossless-Consecutive, NeverFull, lost-run,
}

abbrev TenTimes : ℕ → ℕ → Type 0
TenTimes k v = v ≡ k * 10

abbrev streaming : Resequencer ℕ
streaming = record {
  next = 65534;
  started = true;
  pending = [];
  on_missing = true;
  requested = 0;
  have_requested = false;
  reordered = 0;
  lost = 0;
  late = 0;
}

-- Out of order, over the end of the sequence space, with one that comes again.
abbrev shuffled : List (ℕ × ℕ)
shuffled = (65535, 655350) ∷ (65534, 655340) ∷ (1, 10) ∷ (0, 0) ∷ (0, 0) ∷ []

streaming-IsValid : IsValid TenTimes streaming
unfolding lookup
streaming-IsValid = record {
  holds = record { next_fits = omega arith; distinct = tt; held = tt; lost_fits = omega arith };
  gap = refl;
  bounded = omega arith;
  idle = λ off. absurd (ground arith);
}

shuffled-AllSent : AllSent TenTimes shuffled
shuffled-AllSent = (
  omega arith,
  refl,
  (omega arith, refl, (omega arith, refl, (omega arith, refl, (omega arith, refl, tt)))),
)

shuffled-run : (run streaming shuffled).0 ≡ 655340 ∷ 655350 ∷ 0 ∷ 10 ∷ []
unfolding run push start notice release drain_all drain request_missing lookup insert erase
shuffled-run = refl

shuffled_lost : (run streaming shuffled).1.lost ≡ 0
unfolding run push start notice release drain_all drain request_missing lookup insert erase
shuffled_lost = refl

shuffled_room : NeverFull TenTimes streaming shuffled
unfolding push start notice release drain_all drain request_missing lookup insert erase
shuffled_room = (omega arith, (omega arith, (omega arith, (omega arith, (omega arith, tt)))))

run-Plays_example : Plays TenTimes 65534 streaming shuffled (run streaming shuffled)
run-Plays_example =
    run-Plays TenTimes 65534 streaming shuffled streaming-IsValid refl refl shuffled-AllSent

lossless-Consecutive_example : Consecutive TenTimes 65534 (run streaming shuffled).0
lossless-Consecutive_example =
    lossless-Consecutive TenTimes 65534 streaming shuffled streaming-IsValid refl refl
      shuffled-AllSent (omega arith) shuffled_lost

lost-run_example : (run streaming shuffled).1.lost ≡ 0
lost-run_example =
    lost-run TenTimes streaming shuffled streaming-IsValid shuffled-AllSent shuffled_room

push-Emits_example : Emits TenTimes streaming 65534 (push streaming 65534 655340)
push-Emits_example = push-Emits TenTimes 65534 655340 streaming-IsValid (omega arith) refl

-- A packet three positions early asks for the three that are missing.
early_asks : (push streaming 1 10).asked ≡ some (65534, 3)
unfolding push start notice request_missing
early_asks = refl

streaming_any-IsValid : IsValid (λ k v. Unit {0}) streaming
unfolding lookup
streaming_any-IsValid = record {
  holds = record { next_fits = omega arith; distinct = tt; held = tt; lost_fits = omega arith };
  gap = refl;
  bounded = omega arith;
  idle = λ off. absurd (ground arith);
}

still_open : (push streaming 1 10).queue.next ≡ 65534
unfolding push start notice release drain_all drain request_missing lookup insert erase
still_open = refl

asked_once_example : (push (push streaming 1 10).queue 2 20).asked ≡ none
asked_once_example =
    asked_once 1 10 65534 3 streaming_any-IsValid (omega arith) early_asks still_open 2 20

-- Two packets wait behind a gap: the nearer one is taken, over the end of the sequence space.
abbrev gapped : Resequencer ℕ
gapped = record streaming { pending = (3, 30) ∷ (1, 10) ∷ [] }

gapped-Holds : Holds TenTimes gapped
unfolding lookup
gapped-Holds = record {
  next_fits = omega arith;
  distinct = (refl, (refl, tt));
  held = ((omega arith, omega arith, refl), ((omega arith, omega arith, refl), tt));
  lost_fits = omega arith;
}

gapped_skip : (skip_to_next_pending gapped).next ≡ 1
unfolding skip_to_next_pending closest consider
gapped_skip = refl
