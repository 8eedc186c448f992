-- ===== src/Raop/Reorder/Stream.antt =====
-- A whole session's packets through the resequencer.
use sonospoof.Base.{
  ℕ, ◌+◌, ◌*◌, ◌≤◌, ◌<◌, ◌^◌, ◌≡◌, refl, sym, ap, ◌∙◌, List, [], ◌∷◌, ◌++◌, arith, length, u16, u64,
  subst, length-append, true,
}
use sonospoof.Raop.Reorder.{Resequencer, push, seq_window}
use sonospoof.Raop.Reorder.Window.{InOrder, InOrder-append}
use sonospoof.Raop.Reorder.Inv.{IsValid}
use sonospoof.Raop.Reorder.Push.{push-Emits, start_on}

module _ {A : Type 0} where
  -- The packets in the order of their arrival, each under its number; what comes out.
  unfoldable pub run : Resequencer A → List (ℕ × A) → List A × Resequencer A
  run q [] = ([], q)
  run q ((seq, pkt) ∷ arrivals) =
      let p = push q seq pkt in let rest = run p.queue arrivals in (p.ready ++ rest.0, rest.1)

module _ {A : Type 0} (Sent : ℕ → A → Type 0) where
  abbrev pub AllSent : List (ℕ × A) → Type 0
  AllSent [] = Unit
  AllSent ((seq, pkt) ∷ arrivals) = (seq < 2 ^ 16) × Sent seq pkt × AllSent arrivals

  pub record Plays (n : ℕ) (q : Resequencer A) (arrivals : List (ℕ × A))
      (out : List A × Resequencer A) : Type 0 where
    pub skipped : ℕ
    pub valid : IsValid Sent out.1
    pub order : InOrder Sent n out.0 (n + length out.0 + skipped)
    pub next_at : out.1.next ≡ u16 (n + length out.0 + skipped)
    pub lost_at : out.1.lost ≡ u64 (q.lost + skipped)
    pub small : skipped ≤ 2 ^ 16 * length arrivals

  -- From a valid state that has started, whatever arrives, and in whatever order, the packets come
  -- out at growing positions of the stream, each under a position at which it was sent, and every
  -- position that was passed over is counted as lost; the state stays valid.
  pub run-Plays :
      (n : ℕ) (q : Resequencer A) (arrivals : List (ℕ × A))
      → IsValid Sent q
      → q.started ≡ true
      → u16 n ≡ q.next
      → AllSent arrivals
      → Plays n q arrivals (run q arrivals)
  unfolding run
  run-Plays n q [] v on at sent = record {
    skipped = 0;
    valid = v;
    order = omega arith;
    next_at = omega arith;
    lost_at = omega (arith, v.holds.lost_fits);
    small = omega arith;
  }
  run-Plays n q ((seq, pkt) ∷ arrivals) v on at sent =
      let p = push q seq pkt in
      let m = push-Emits Sent seq pkt v sent.0 sent.1 in
      let here = ap (λ (x : Resequencer A). x.next) (start_on Sent q seq on) in
      let k : ℕ = n + length p.ready + m.skipped in
      let later =
        run-Plays k p.queue arrivals m.valid m.started (omega (arith, here, m.next_at)) sent.2 in
      let len = length-append p.ready (run p.queue arrivals).0 in
      record {
        skipped = m.skipped + later.skipped;
        valid = later.valid;
        order =
            subst (InOrder Sent n (p.ready ++ (run p.queue arrivals).0))
              {x = k + length (run p.queue arrivals).0 + later.skipped}
              {y = n + length (p.ready ++ (run p.queue arrivals).0) + (m.skipped + later.skipped)}
              (omega (arith, len))
              (InOrder-append Sent n k (k + length (run p.queue arrivals).0 + later.skipped) p.ready
                (run p.queue arrivals).0 (m.order n (at ∙ sym here)) later.order);
        next_at = omega (arith, later.next_at, len);
        lost_at = omega (arith, later.lost_at, m.lost_at);
        small = omega (arith, later.small, m.small);
      }

  -- The packets of the positions from `n` on, with none missing.
  abbrev pub Consecutive : ℕ → List A → Type 0
  Consecutive n [] = Unit
  Consecutive n (x ∷ xs) = Sent (u16 n) x × Consecutive (n + 1) xs

  InOrder-length : (n m : ℕ) (xs : List A) → InOrder Sent n xs m → n + length xs ≤ m
  InOrder-length n m [] h = omega arith
  InOrder-length n m (x ∷ xs) (p, le, s, r) = omega (arith, InOrder-length (p + 1) m xs r)

  -- Where nothing was skipped, growing positions are consecutive ones.
  pub InOrder-Consecutive :
      (n m : ℕ) (xs : List A) → InOrder Sent n xs m → m ≡ n + length xs → Consecutive n xs
  InOrder-Consecutive n m [] h e = tt
  InOrder-Consecutive n m (x ∷ xs) (p, le, s, r) e =
      let here : p ≡ n = omega (arith, InOrder-length (p + 1) m xs r) in
      (
        subst (λ k. Sent (u16 k) x) here s,
        subst (λ k. Consecutive (k + 1) xs) here (InOrder-Consecutive (p + 1) m xs r (omega arith)),
      )

  -- From a valid state that has started, a session of fewer than 2^48 packets whose counter of
  -- lost packets does not move plays the packets of consecutive positions, in order, with none
  -- missing in between.
  pub lossless-Consecutive :
      (n : ℕ) (q : Resequencer A) (arrivals : List (ℕ × A))
      → IsValid Sent q
      → q.started ≡ true
      → u16 n ≡ q.next
      → AllSent arrivals
      → length arrivals < 2 ^ 48
      → (run q arrivals).1.lost ≡ q.lost
      → Consecutive n (run q arrivals).0
  lossless-Consecutive n q arrivals v on at sent short same =
      let p = run-Plays n q arrivals v on at sent in
      InOrder-Consecutive n (n + length (run q arrivals).0 + p.skipped) (run q arrivals).0 p.order
        (omega (arith, p.lost_at, p.small, v.holds.lost_fits))

  -- No packet arrives while the window is full.
  abbrev pub NeverFull : Resequencer A → List (ℕ × A) → Type 0
  NeverFull q [] = Unit
  NeverFull q ((seq, pkt) ∷ arrivals) =
      (length q.pending < seq_window) × NeverFull (push q seq pkt).queue arrivals

  -- From a valid state, as long as no packet arrives while the window is full, a missing packet is
  -- waited for: nothing is lost.
  pub lost-run :
      (q : Resequencer A) (arrivals : List (ℕ × A))
      → IsValid Sent q
      → AllSent arrivals
      → NeverFull q arrivals
      → (run q arrivals).1.lost ≡ q.lost
  unfolding run
  lost-run q [] v sent room = refl
  lost-run q ((seq, pkt) ∷ arrivals) v sent room =
      let m = push-Emits Sent seq pkt v sent.0 sent.1 in
      lost-run (push q seq pkt).queue arrivals m.valid sent.2 room.1
      ∙ omega (arith, m.lost_at, m.patient room.0, v.holds.lost_fits)
