-- ===== src/Raop/Reorder/Order.antt =====
-- What `push` emits: its order, what it skips, and that it keeps the invariant.
use sonospoof.Base.{
  ℕ, suc, ◌+◌, ◌≤◌, ◌<◌, ◌^◌, ◌≡◌, refl, sym, ap, ap₂, ◌∙◌, List, ◌++◌, none, some, arith, length,
  u16, u64, sub16, inl, inr, Bool-cases, ltb, subst, length-append,
}
use sonospoof.Raop.Reorder.{Resequencer, drain_all, skip_to_next_pending, seq_window, release}
use sonospoof.Raop.Reorder.Pending.{lookup}
use sonospoof.Raop.Reorder.Window.{InOrder, InOrder-append, InOrder-later, u16-add-sub16}
use sonospoof.Raop.Reorder.Inv.{rest, Holds, Drained, drain-Drained, drain_step}
use sonospoof.Raop.Reorder.Skip.{skip-Skipped}

module _ {A : Type 0} (Sent : ℕ → A → Type 0) where
  pub drain_all-Drained : (q : Resequencer A) → Holds Sent q → Drained Sent q (drain_all q)
  unfolding drain_all
  drain_all-Drained q h = drain-Drained Sent (suc (length q.pending)) q h (omega arith)

  -- A packet that waits at the next position is drained.
  drain_some :
      (q : Resequencer A) {pkt : A}
      → lookup q.next q.pending ≡ some pkt
      → 0 < length (drain_all q).0
  unfolding drain_all
  drain_some q e = rw (drain_step Sent (length q.pending) q e) (omega arith)

  pub record Released (q : Resequencer A) (out : List A × Resequencer A) : Type 0 where
    pub skipped : ℕ
    pub holds : Holds Sent out.1
    pub gap : lookup out.1.next out.1.pending ≡ none
    pub count : length out.0 + length out.1.pending ≡ length q.pending
    pub bounded : length q.pending ≤ seq_window + 1 → length out.1.pending ≤ seq_window
    pub order : (n : ℕ) → u16 n ≡ q.next → InOrder Sent n out.0 (n + length out.0 + skipped)
    pub next_at : out.1.next ≡ u16 (q.next + length out.0 + skipped)
    pub lost_at : out.1.lost ≡ u64 (q.lost + skipped)
    pub patient : length q.pending ≤ seq_window → skipped ≡ 0
    pub small : skipped < 2 ^ 16
    pub same_rest : rest out.1 ≡ rest q

  pub release-Released : (q : Resequencer A) → Holds Sent q → Released q (release q)
  unfolding release
  release-Released q h =
      let q' : Resequencer A = (drain_all q).1 in
      let ready : List A = (drain_all q).0 in
      let d = drain_all-Drained q h in
      elim (Bool-cases (ltb seq_window (length q'.pending))) [
        | inr within ↦ rw within (record {
          skipped = 0;
          holds = d.holds;
          gap = d.gap;
          count = d.count;
          bounded = λ b. ground arith;
          order = λ n at.
              subst (InOrder Sent n ready) {x = n + length ready} {y = n + length ready + 0}
                (omega arith) (d.order n at);
          next_at = omega (arith, d.next_at);
          lost_at = ap (λ (x : Resequencer A). x.lost) d.frame ∙ omega (arith, h.lost_fits);
          patient = λ b. refl;
          small = omega arith;
          same_rest = ap rest d.frame;
        })
        | inl over ↦ rw over (
            let s = skip-Skipped Sent q' d.holds (ground arith) in
            let q2 : Resequencer A = skip_to_next_pending q' in
            let more : List A = (drain_all q2).0 in
            let e = drain_all-Drained q2 s.holds in
            let some_more =
              drain_some q2 {pkt = s.pkt} (ap₂ lookup s.next_at s.same_pending ∙ s.waits) in
            let len = length-append ready more in
            let same = ap length s.same_pending in
            let best_fits : s.best < 2 ^ 16 = subst (λ k. k < 2 ^ 16) s.next_at s.holds.next_fits in
            let lost₁ = ap (λ (x : Resequencer A). x.lost) d.frame in
            let lost₂ = ap (λ (x : Resequencer A). x.lost) e.frame in
            let at_best =
              u16-add-sub16 (q.next + length ready) s.best q'.next best_fits d.holds.next_fits
                (sym d.next_at) in
            record {
              skipped = sub16 s.best q'.next;
              holds = e.holds;
              gap = e.gap;
              count = omega (arith, len, same, d.count, e.count);
              bounded = λ b. omega (arith, same, some_more, d.count, e.count);
              order = λ n at.
                  let k : ℕ = n + length ready + sub16 s.best q'.next in
                  let at_k =
                    u16-add-sub16 (n + length ready) s.best q'.next best_fits d.holds.next_fits
                      (omega (arith, d.next_at)) in
                  let first =
                    InOrder-later Sent n (n + length ready) k ready (d.order n at) (omega arith) in
                  subst (InOrder Sent n (ready ++ more)) {x = k + length more}
                    {y = n + length (ready ++ more) + sub16 s.best q'.next} (omega (arith, len))
                    (InOrder-append Sent n k (k + length more) ready more first
                      (e.order k (at_k ∙ sym s.next_at)));
              next_at = omega (arith, len, at_best, e.next_at, s.next_at);
              lost_at = omega (arith, lost₁, lost₂, s.lost_at);
              patient = λ b. absurd (ground (arith, d.count));
              small = omega arith;
              same_rest = ap rest e.frame ∙ s.same_rest ∙ ap rest d.frame;
            })
      ]
