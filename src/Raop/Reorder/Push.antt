-- ===== src/Raop/Reorder/Push.antt =====
-- What `push` emits: its order, what it skips, and that it keeps the invariant.
use sonospoof.Base.{
  Bool, ℕ, ◌+◌, ◌<◌, ◌^◌, ◌≡◌, refl, sym, ap, ◌∙◌, List, [], Option, none, arith, length, u16, u64,
  inl, inr, true, false, Bool-cases, not, subst, subst₂, if_true, if_false,
}
use sonospoof.Raop.Reorder.{
  Resequencer, Pushed, seq_window, ahead, start, notice, release, push, request_missing,
}
use sonospoof.Raop.Reorder.Pending.{
  Distinct, lookup, insert, erase, AllHeld, erase-AllHeld, erase-Distinct, lookup-erase_self,
  length-erase-le, erase_absent,
}
use sonospoof.Raop.Reorder.Window.{InOrder}
use sonospoof.Raop.Reorder.Inv.{rest, Waiting, Holds, IsValid}
use sonospoof.Raop.Reorder.Order.{release-Released}

module _ {A : Type 0} (Sent : ℕ → A → Type 0) where
  -- What a push emits, with `skipped` positions given up.
  pub record Emits (q : Resequencer A) (seq : ℕ) (p : Pushed A) : Type 0 where
    pub skipped : ℕ
    pub valid : IsValid Sent p.queue
    pub started : p.queue.started ≡ true
    pub order :
        (n : ℕ) → u16 n ≡ (start q seq).next → InOrder Sent n p.ready (n + length p.ready + skipped)
    pub next_at : p.queue.next ≡ u16 ((start q seq).next + length p.ready + skipped)
    pub lost_at : p.queue.lost ≡ u64 (q.lost + skipped)
    pub patient : length q.pending < seq_window → skipped ≡ 0
    pub small : skipped < 2 ^ 16
    pub same_rest :
        ahead seq (start q seq).next ≡ true → rest p.queue ≡ rest (notice (start q seq) seq).0
    pub kept :
        ahead seq (start q seq).next ≡ true
        → lookup seq q.pending ≡ none
        → length p.ready + length p.queue.pending ≡ length q.pending + 1

  pub start_on : (q : Resequencer A) (seq : ℕ) → q.started ≡ true → start q seq ≡ q
  unfolding start
  start_on q seq e = if_true _ _ e

  start_off :
      (q : Resequencer A) (seq : ℕ)
      → q.started ≡ false
      → start q seq ≡ record q { started = true; next = seq }
  unfolding start
  start_off q seq e = if_false _ _ e

  pub record Started (q q' : Resequencer A) : Type 0 where
    pub valid : IsValid Sent q'
    pub started : q'.started ≡ true
    pub pending : q'.pending ≡ q.pending
    pub lost : q'.lost ≡ q.lost

  pub start-Started :
      {q : Resequencer A} (seq : ℕ) → seq < 2 ^ 16 → IsValid Sent q → Started q (start q seq)
  unfolding lookup
  start-Started {q} seq h v = elim (Bool-cases q.started) [
    | inl on ↦
        subst (Started q) (sym (start_on q seq on))
          (record { valid = v; started = on; pending = refl; lost = refl })
    | inr off ↦
        let empty = v.idle off in
        subst (Started q) (sym (start_off q seq off)) (record {
          valid = record {
            holds = record {
              next_fits = h;
              distinct = v.holds.distinct;
              held = subst (AllHeld (Waiting Sent seq)) (sym empty) tt;
              lost_fits = v.holds.lost_fits;
            };
            gap = ap (lookup seq) empty;
            bounded = v.bounded;
            idle = λ no_start. absurd (ground arith);
          };
          started = refl;
          pending = refl;
          lost = refl;
        })
  ]

  record Same (q q' : Resequencer A) : Type 0 where
    next : q'.next ≡ q.next
    pending : q'.pending ≡ q.pending
    started : q'.started ≡ q.started
    lost : q'.lost ≡ q.lost

  notice-Same : (q : Resequencer A) (seq : ℕ) → Same q (notice q seq).0
  unfolding notice request_missing
  notice-Same q seq = ground arith

  Same-Holds : {q q' : Resequencer A} → Same q q' → Holds Sent q → Holds Sent q'
  Same-Holds m h = record {
    next_fits = omega (arith, m.next, h.next_fits);
    distinct = subst Distinct (sym m.pending) h.distinct;
    held = subst₂ (λ n p. AllHeld (Waiting Sent n) p) (sym m.next) (sym m.pending) h.held;
    lost_fits = omega (arith, m.lost, h.lost_fits);
  }

  inserted : Resequencer A → ℕ → A → Resequencer A
  inserted q seq pkt = record q { pending = insert seq pkt q.pending }

  insert-Holds :
      {q : Resequencer A} (seq : ℕ) (pkt : A)
      → Holds Sent q
      → Waiting Sent q.next seq pkt
      → Holds Sent (inserted q seq pkt)
  unfolding inserted insert
  insert-Holds {q} seq pkt h w = record {
    next_fits = h.next_fits;
    distinct = (lookup-erase_self seq q.pending, erase-Distinct seq q.pending h.distinct);
    held = (w, erase-AllHeld (Waiting Sent q.next) seq q.pending h.held);
    lost_fits = h.lost_fits;
  }

  late-Emits :
      (q : Resequencer A) (seq : ℕ)
      → Started q (start q seq)
      → ahead seq (start q seq).next ≡ false
      → Emits q seq (record {
        ready = [];
        asked = none;
        queue = record (start q seq) { late = u64 ((start q seq).late + 1) };
      })
  late-Emits q seq s past = record {
    skipped = 0;
    valid = record {
      holds = record {
        next_fits = s.valid.holds.next_fits;
        distinct = s.valid.holds.distinct;
        held = s.valid.holds.held;
        lost_fits = s.valid.holds.lost_fits;
      };
      gap = s.valid.gap;
      bounded = s.valid.bounded;
      idle = s.valid.idle;
    };
    started = s.started;
    order = λ n at. omega arith;
    next_at = omega (arith, s.valid.holds.next_fits);
    lost_at = omega (arith, s.lost, s.valid.holds.lost_fits);
    patient = λ room. refl;
    small = omega arith;
    same_rest = λ here. absurd (ground arith);
    kept = λ here fresh. absurd (ground arith);
  }

  accept-Emits :
      (q : Resequencer A) (seq : ℕ) (pkt : A) (asked : Option (ℕ × ℕ))
      → seq < 2 ^ 16
      → Sent seq pkt
      → Started q (start q seq)
      → ahead seq (start q seq).next ≡ true
      → let out = release (inserted (notice (start q seq) seq).0 seq pkt) in
        Emits q seq (record { ready = out.0; asked = asked; queue = out.1 })
  unfolding inserted insert
  accept-Emits q seq pkt asked hs sent s here =
      let q₁ : Resequencer A = start q seq in
      let q₂ : Resequencer A = (notice q₁ seq).0 in
      let m = notice-Same q₁ seq in
      let size : length (insert seq pkt q₂.pending) ≡ length (erase seq q.pending) + 1 =
        omega (arith, ap (λ (p : List (ℕ × A)). length (erase seq p)) (m.pending ∙ s.pending)) in
      let holds₂ : Holds Sent q₂ = Same-Holds m s.valid.holds in
      let r =
        release-Released Sent (inserted q₂ seq pkt)
          (insert-Holds seq pkt holds₂ (hs, ground (arith, m.next), sent)) in
      record {
        skipped = r.skipped;
        valid = record {
          holds = r.holds;
          gap = r.gap;
          bounded = r.bounded (
              omega
                (arith, size, ap length s.pending, s.valid.bounded, length-erase-le seq q.pending));
          idle = λ off. absurd (
              ground (
                arith,
                ap (λ (t : Bool × Bool × ℕ × Bool). t.0) r.same_rest ∙ m.started ∙ s.started,
              ));
        };
        started = ap (λ (t : Bool × Bool × ℕ × Bool). t.0) r.same_rest ∙ m.started ∙ s.started;
        order = λ n at. r.order n (at ∙ sym m.next);
        next_at =
            r.next_at
            ∙ ap (λ k. u16 (k + length (release (inserted q₂ seq pkt)).0 + r.skipped)) m.next;
        lost_at = r.lost_at ∙ ap (λ k. u64 (k + r.skipped)) (m.lost ∙ s.lost);
        patient = λ room. r.patient (omega (arith, size, length-erase-le seq q.pending));
        same_rest = λ ok. r.same_rest;
        small = r.small;
        kept =
            λ ok fresh. omega (arith, r.count, size, ap length (erase_absent seq q.pending fresh));
      }

  -- A push into a valid state emits packets that were sent under their positions, at growing
  -- positions from the next one on; every position up to the new next one is emitted or counted as
  -- lost; nothing is given up while the window is not full; and a packet that is in time and not
  -- held yet is emitted or held. The state stays valid.
  pub push-Emits :
      {q : Resequencer A} (seq : ℕ) (pkt : A)
      → IsValid Sent q
      → seq < 2 ^ 16
      → Sent seq pkt
      → Emits q seq (push q seq pkt)
  unfolding push inserted
  push-Emits {q} seq pkt v hs sent =
      let s = start-Started seq hs v in
      elim (Bool-cases (ahead seq (start q seq).next)) [
        | inl here ↦
            subst (Emits q seq) (sym (if_false _ _ (ap not here)))
              (accept-Emits q seq pkt (notice (start q seq) seq).1 hs sent s here)
        | inr past ↦ subst (Emits q seq) (sym (if_true _ _ (ap not past))) (late-Emits q seq s past)
      ]
