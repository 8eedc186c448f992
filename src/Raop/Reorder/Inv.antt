-- ===== src/Raop/Reorder/Inv.antt =====
-- The invariant of the resequencer, and what `drain` and `skipToNextPending` do to it.
use sonospoof.Base.{
  Bool, ℕ, zero, suc, ◌+◌, ◌≤◌, ◌<◌, ◌^◌, ◌≡◌, refl, sym, List, [], ◌∷◌, none, some, arith, length,
  u16, sub16, Option-cases, inl, inr, false, subst,
}
use sonospoof.Raop.Reorder.{Resequencer, drain, seq_window}
use sonospoof.Raop.Reorder.Pending.{
  lookup, erase, Distinct, AllHeld, AllHeld-map, AllHeld-ne, AllHeld-lookup, erase-AllHeld,
  erase-Distinct, length-erase, lookup-erase_self,
}
use sonospoof.Raop.Reorder.Window.{InOrder, sub16-suc}

-- What only `push` itself changes.
abbrev pub rest : {A : Type 0} → Resequencer A → Bool × Bool × ℕ × Bool
rest q = (q.started, q.on_missing, q.requested, q.have_requested)

module _ {A : Type 0} (Sent : ℕ → A → Type 0) where
  -- A held packet is at or ahead of the next position, in the half of the sequence space that
  -- `ahead` tells from the past, and it was sent under its key.
  abbrev pub Waiting : ℕ → ℕ → A → Type 0
  Waiting next k v = (k < 2 ^ 16) × (sub16 k next < 2 ^ 15) × Sent k v

  pub record Holds (q : Resequencer A) : Type 0 where
    pub next_fits : q.next < 2 ^ 16
    pub distinct : Distinct q.pending
    pub held : AllHeld (Waiting q.next) q.pending
    pub lost_fits : q.lost < 2 ^ 64

  -- Between two pushes the next packet is missing, and the window is not exceeded.
  pub record IsValid (q : Resequencer A) : Type 0 where
    pub holds : Holds q
    pub gap : lookup q.next q.pending ≡ none
    pub bounded : length q.pending ≤ seq_window
    pub idle : q.started ≡ false → q.pending ≡ []

  -- What `drain` does: it empties the run of packets at the next position, and stops at a gap.
  pub record Drained (q : Resequencer A) (out : List A × Resequencer A) : Type 0 where
    pub holds : Holds out.1
    pub gap : lookup out.1.next out.1.pending ≡ none
    pub count : length out.0 + length out.1.pending ≡ length q.pending
    pub order : (n : ℕ) → u16 n ≡ q.next → InOrder Sent n out.0 (n + length out.0)
    pub next_at : out.1.next ≡ u16 (q.next + length out.0)
    pub frame : out.1 ≡ record q { next = out.1.next; pending = out.1.pending }

  pub popped : Resequencer A → Resequencer A
  popped q = record q { pending = erase q.next q.pending; next = u16 (q.next + 1) }

  Waiting-step :
      (next : ℕ) (m : List (ℕ × A))
      → next < 2 ^ 16
      → AllHeld (Waiting next) m
      → AllHeld (Waiting (u16 (next + 1))) (erase next m)
  Waiting-step next m hn h =
      AllHeld-map (erase next m) (λ k v w ne. (w.0, omega (arith, sub16-suc k next w.0 hn ne), w.2))
        (erase-AllHeld (Waiting next) next m h)
        (AllHeld-ne next (erase next m) (lookup-erase_self next m))

  popped-Holds : {q : Resequencer A} → Holds q → Holds (popped q)
  unfolding popped
  popped-Holds {q} h = record {
    next_fits = omega arith;
    distinct = erase-Distinct q.next q.pending h.distinct;
    held = Waiting-step q.next q.pending h.next_fits h.held;
    lost_fits = h.lost_fits;
  }

  pub drain_stop :
      (fuel : ℕ) (q : Resequencer A) → lookup q.next q.pending ≡ none → drain (suc fuel) q ≡ ([], q)
  unfolding drain
  drain_stop fuel q e = rw (e, drain)

  pub drain_step :
      (fuel : ℕ) (q : Resequencer A) {pkt : A}
      → lookup q.next q.pending ≡ some pkt
      → drain (suc fuel) q ≡ (pkt ∷ (drain fuel (popped q)).0, (drain fuel (popped q)).1)
  unfolding drain popped
  drain_step fuel q e = rw (e, drain)

  -- With more fuel than packets are held, `drain` runs to its end: it stops at a gap, and what it
  -- takes out are the packets of consecutive positions from the next one on, each one that was
  -- sent under its position; the others stay, and nothing else changes.
  pub drain-Drained :
      (fuel : ℕ) (q : Resequencer A) → Holds q → length q.pending < fuel → Drained q (drain fuel q)
  unfolding popped
  drain-Drained zero q h lt = absurd (omega arith)
  drain-Drained (suc fuel) q h lt = elim (Option-cases (lookup q.next q.pending)) [
    | inl e ↦ rw (drain_stop fuel q e) (record {
      holds = h;
      gap = e;
      count = omega arith;
      order = λ n at. omega arith;
      next_at = omega (arith, h.next_fits);
      frame = refl;
    })
    | inr (pkt, e) ↦
        let less = length-erase q.next q.pending h.distinct e in
        let r = drain-Drained fuel (popped q) (popped-Holds h) (omega arith) in
        let w = AllHeld-lookup (Waiting q.next) q.next q.pending h.held e in
        rw (drain_step fuel q e) (record {
          holds = r.holds;
          gap = r.gap;
          count = omega (arith, r.count);
          order = λ n at. (
            n,
            omega arith,
            subst (λ k. Sent k pkt) (sym at) w.2,
            subst (λ m. InOrder Sent (n + 1) (drain fuel (popped q)).0 m)
                {x = n + 1 + length (drain fuel (popped q)).0}
                {y = n + suc (length (drain fuel (popped q)).0)} (omega arith)
                (r.order (n + 1) (omega arith)),
          );
          next_at = omega (arith, r.next_at);
          frame = r.frame;
        })
  ]
