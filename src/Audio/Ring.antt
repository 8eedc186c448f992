-- ===== src/Audio/Ring.antt =====
-- internal/audio/ring.go: the circular buffer between the decoder and the HTTP stream.
--
-- Every method holds the mutex for each of its critical sections, so a method is a function on
-- the ring, and what other goroutines do between two sections is a list of events.
-- A sample is the bit pattern of an int16. Zero and negative capacities panic alike: the
-- capacity is a number, and 0 stands for both.
pub mod Fifo
pub mod Inv
pub mod Refine
pub mod Drain
pub mod Heard
pub mod Blocking
pub mod WaitFor
mod Tests
use sonospoof.Base.{
  ℕ, zero, suc, ◌+◌, ◌-◌, ◌%◌, Bool, true, false, List, [], ◌∷◌, ◌++◌, Option, none, some, ◌==◌,
  leb, if◌then◌else◌, length, get_or, set, replicate, u64,
}

-- `Ring`; `wake` says that a signal is waiting in the channel of capacity 1.
pub record Ring : Type 0 where
  pub buf : List ℕ
  pub r : ℕ
  pub w : ℕ
  pub n : ℕ
  pub wake : Bool
  pub underrun : ℕ
  pub dropped : ℕ

-- `NewRing`; `none` is the panic.
unfoldable pub new_ring : ℕ → Option Ring
new_ring capacity = if capacity == 0 then none else some fresh
  where
    fresh : Ring
    fresh = record {
      buf = replicate capacity 0;
      r = 0;
      w = 0;
      n = 0;
      wake = false;
      underrun = 0;
      dropped = 0;
    }

-- The loop body of `Write`: the oldest sample makes room in a full buffer.
pub make_room : Ring → Ring
make_room q =
    if q.n == length q.buf
    then record q { r = (q.r + 1) % length q.buf; n = q.n - 1; dropped = u64 (q.dropped + 1) }
    else q

pub store : Ring → ℕ → Ring
store q s = record q { buf = set q.buf q.w s; w = (q.w + 1) % length q.buf; n = q.n + 1 }

pub write_one : Ring → ℕ → Ring
write_one q s = store (make_room q) s

pub write_all : Ring → List ℕ → Ring
write_all q [] = q
write_all q (s ∷ samples) = write_all (write_one q s) samples

-- `Write`: the samples, then the non-blocking send on `wake`.
unfoldable pub write : Ring → List ℕ → Ring
write q samples = record (write_all q samples) { wake = true }

-- One round of the loop of `take`.
pub advance : Ring → Ring
advance q = record q { r = (q.r + 1) % length q.buf; n = q.n - 1 }

-- `take` into a slice of the given length: the samples that it moved, and the ring.
pub take_out : ℕ → Ring → List ℕ × Ring
take_out zero q = ([], q)
take_out (suc k) q =
    let rest = take_out k (advance q) in
    if q.n == 0 then ([], q) else (get_or q.buf q.r 0 ∷ rest.0, rest.1)

-- What a read fills its slice with, and how many samples of it were real.
pub record Filled : Type 0 where
  pub dst : List ℕ
  pub real : ℕ

-- The padding branch, which `Read` has twice.
pub pad : ℕ → List ℕ → Ring → Filled × Ring
pad size got q = (
  record { dst = got ++ replicate (size - length got) 0; real = length got },
  record q { underrun = u64 (q.underrun + (size - length got)) },
)

-- `Read` with `wait <= 0`.
pub read_now : ℕ → Ring → Filled × Ring
read_now size q =
    let (got, q') = take_out size q in
    if length got == size then (record { dst = got; real = length got }, q') else pad size got q'

-- `Len` and `Stats`.
pub len : Ring → ℕ
len q = q.n

pub stats : Ring → ℕ × ℕ
stats q = (q.underrun, q.dropped)

-- `Reset` leaves the samples and a waiting signal where they are.
unfoldable pub reset : Ring → Ring
reset q = record q { r = 0; w = 0; n = 0; underrun = 0; dropped = 0 }

-- What happens while a method is blocked in a `select`: another goroutine writes or resets the
-- ring, the wake signal is received (only where one waits), or the deadline fires.
pub data Event : Type 0 where
  written : List ℕ → Event
  flushed woken expired : Event

-- `blocked` is a call that has not returned when the events end.
pub data Outcome {ℓ} (A : Type ℓ) : Type ℓ where
  returned : A → Outcome A
  blocked : Outcome A

-- The loop of `Read`, entered with `got` samples in a slice of `size`.
pub read_loop : List Event → ℕ → List ℕ → Ring → Outcome Filled × Ring
read_loop [] size got q = (blocked, q)
read_loop (written samples ∷ es) size got q = read_loop es size got (write q samples)
read_loop (flushed ∷ es) size got q = read_loop es size got (reset q)
read_loop (woken ∷ es) size got q =
    let stay = read_loop es size got q in
    let (more, q') = take_out (size - length got) (record q { wake = false }) in
    let all = got ++ more in
    let rest = read_loop es size all q' in
    if q.wake
    then (if length all == size
        then (returned (record { dst = all; real = length all }), q')
        else rest)
    else stay
read_loop (expired ∷ es) size got q = let (f, q') = pad size got q in (returned f, q')

-- `Read` with a positive wait.
pub read_wait : List Event → ℕ → Ring → Outcome Filled × Ring
read_wait es size q =
    let (got, q') = take_out size q in
    if length got == size
    then (returned (record { dst = got; real = length got }), q')
    else read_loop es size got q'

-- The loop of `WaitFor`.
pub wait_loop : List Event → ℕ → Ring → Outcome Bool × Ring
wait_loop [] want q = (blocked, q)
wait_loop (written samples ∷ es) want q = wait_loop es want (write q samples)
wait_loop (flushed ∷ es) want q = wait_loop es want (reset q)
wait_loop (woken ∷ es) want q =
    let stay = wait_loop es want q in
    let again = wait_loop es want (record q { wake = false }) in
    if q.wake
    then (if leb want q.n then (returned true, record q { wake = false }) else again)
    else stay
wait_loop (expired ∷ es) want q = (returned (leb want q.n), q)

pub wait_for : List Event → ℕ → Ring → Outcome Bool × Ring
wait_for es want q = if leb want q.n then (returned true, q) else wait_loop es want q
