-- ===== src/Raop/Reorder.antt =====
-- internal/raop/reorder.go: the resequencer of RTP audio packets.
--
-- A packet is any value, since packets are only moved. The map `pending` is a list of distinct
-- keys in the order in which `range` visits them; a key that is written again moves to the front,
-- and no theorem depends on the order. The callback `onMissing` is what `asked` reports of a push.
pub mod Pending
pub mod Window
pub mod Inv
pub mod Skip
pub mod Order
pub mod Push
pub mod Requests
pub mod Stream
mod Tests
use sonospoof.Base.{
  ℕ, zero, suc, ◌+◌, ◌-◌, ◌%◌, ◌^◌, Bool, true, false, not, ◌&&◌, ◌||◌, List, [], ◌∷◌, ◌++◌, Option,
  none, some, ◌==◌, ltb, if◌then◌else◌, length, u16, u64, sub16,
}
use Pending.{lookup, erase, insert}

-- `seqWindow`
abbrev pub seq_window : ℕ
seq_window = 64

pub record Resequencer {ℓ} (A : Type ℓ) : Type ℓ where
  pub next : ℕ
  pub started : Bool
  pub pending : List (ℕ × A)
  pub on_missing : Bool
  pub requested : ℕ
  pub have_requested : Bool
  pub reordered : ℕ
  pub lost : ℕ
  pub late : ℕ

-- What `push` returns, the call of `onMissing` that it makes, and the new state.
pub record Pushed {ℓ} (A : Type ℓ) : Type ℓ where
  pub ready : List A
  pub asked : Option (ℕ × ℕ)
  pub queue : Resequencer A

-- `ahead`: int16(a-b) >= 0.
abbrev pub ahead : ℕ → ℕ → Bool
ahead a b = ltb (sub16 a b) (2 ^ 15)

-- The loop body of `skipToNextPending`; `none` is `first`.
pub consider : ℕ → ℕ → Option ℕ → Option ℕ
consider next seq none = if not (ahead seq next) then none else some seq
consider next seq (some best) =
    if not (ahead seq next) then some best else if not (ahead seq best) then some seq else some best

pub closest {ℓ} : {A : Type ℓ} → ℕ → List (ℕ × A) → Option ℕ → Option ℕ
closest next [] best = best
closest next ((seq, pkt) ∷ ps) best = closest next ps (consider next seq best)

module _ {ℓ} {A : Type ℓ} where
  -- `newResequencer`; `on_missing` is set by `OnMissing` later.
  pub new_resequencer : Resequencer A
  new_resequencer = record {
    next = 0;
    started = false;
    pending = [];
    on_missing = false;
    requested = 0;
    have_requested = false;
    reordered = 0;
    lost = 0;
    late = 0;
  }

  -- `requestMissing`: the first and the count that it asks for, if it asks.
  pub request_missing : Resequencer A → ℕ → Resequencer A × Option (ℕ × ℕ)
  request_missing q seq =
      if not q.on_missing
      then (q, none)
      else if q.have_requested && q.requested == q.next
      then (q, none)
      else if sub16 seq q.next == 0 || ltb seq_window (sub16 seq q.next)
      then (q, none)
      else (record q { requested = q.next; have_requested = true }, some (q.next, sub16 seq q.next))

  -- `drain`, with the rounds bounded by fuel.
  pub drain : ℕ → Resequencer A → List A × Resequencer A
  drain zero q = ([], q)
  drain (suc fuel) q = elim (lookup q.next q.pending) [
    | none ↦ ([], q)
    | some pkt ↦
        let rest =
          drain fuel (record q { pending = erase q.next q.pending; next = u16 (q.next + 1) }) in
        (pkt ∷ rest.0, rest.1)
  ]

  -- Each round deletes a packet.
  pub drain_all : Resequencer A → List A × Resequencer A
  drain_all q = drain (suc (length q.pending)) q

  pub skip_to_next_pending : Resequencer A → Resequencer A
  skip_to_next_pending q = elim (closest q.next q.pending none) [
    | none ↦ q
    | some best ↦ record q { lost = u64 (q.lost + sub16 best q.next); next = best }
  ]

  -- The first packet sets the position.
  pub start : Resequencer A → ℕ → Resequencer A
  start q seq = if q.started then q else record q { started = true; next = seq }

  -- A packet ahead of its turn is counted, and what it lacks is asked for.
  pub notice : Resequencer A → ℕ → Resequencer A × Option (ℕ × ℕ)
  notice q seq =
      if seq == q.next
      then (q, none)
      else request_missing (record q { reordered = u64 (q.reordered + 1) }) seq

  -- Past the window, the missing packet is given up.
  pub release : Resequencer A → List A × Resequencer A
  release q =
      let (ready, q') = drain_all q in
      let (more, q'') = drain_all (skip_to_next_pending q') in
      if ltb seq_window (length q'.pending) then (ready ++ more, q'') else (ready, q')

  pub push : Resequencer A → ℕ → A → Pushed A
  push q seq pkt =
      let q₁ = start q seq in
      let (q₂, asked) = notice q₁ seq in
      let (ready, q₃) = release (record q₂ { pending = insert seq pkt q₂.pending }) in
      if not (ahead seq q₁.next)
      then record { ready = []; asked = none; queue = record q₁ { late = u64 (q₁.late + 1) } }
      else record { ready = ready; asked = asked; queue = q₃ }

  -- `reset` keeps the callback, and what was asked for last.
  pub reset : Resequencer A → Resequencer A
  reset q = record q { started = false; next = 0; pending = []; reordered = 0; lost = 0; late = 0 }
