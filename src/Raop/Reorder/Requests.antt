-- ===== src/Raop/Reorder/Requests.antt =====
-- The resend requests of `requestMissing`: which range is asked for, and that it is asked once.
use sonospoof.Base.{
  ℕ, ◌≤◌, ◌<◌, ◌^◌, ◌≡◌, sym, ap, ◌∙◌, none, some, arith, sub16, inl, inr, true, false, Bool-cases,
  not, if_true, if_false, Bool,
}
use sonospoof.Raop.Reorder.{
  Resequencer, Pushed, seq_window, ahead, start, notice, push, request_missing,
}
use sonospoof.Raop.Reorder.Push.{push-Emits, start_on}
use sonospoof.Raop.Reorder.Inv.{IsValid}

module _ {A : Type 0} where
  -- What was asked for and what the state remembers of it.
  record Asks (q : Resequencer A) (seq : ℕ) (r : ℕ × ℕ) (q' : Resequencer A) : Type 0 where
    first : r.0 ≡ q.next
    count : r.1 ≡ sub16 seq q.next
    some_missing : 0 < r.1
    in_window : r.1 ≤ seq_window
    wanted : q.on_missing ≡ true
    remembered : (q'.have_requested ≡ true) × (q'.requested ≡ q.next)

  notice-Asks :
      (q : Resequencer A) (seq : ℕ) (r : ℕ × ℕ)
      → (notice q seq).1 ≡ some r
      → Asks q seq r (notice q seq).0
  unfolding notice request_missing
  notice-Asks q seq r e = ground arith

  notice_again :
      (q : Resequencer A) (seq : ℕ)
      → q.have_requested ≡ true
      → q.requested ≡ q.next
      → (notice q seq).1 ≡ none
  unfolding notice request_missing
  notice_again q seq h e = ground arith

  push_late :
      (q : Resequencer A) (seq : ℕ) (pkt : A)
      → ahead seq (start q seq).next ≡ false
      → (push q seq pkt).asked ≡ none
  unfolding push
  push_late q seq pkt past = ap (λ (p : Pushed A). p.asked) (if_true _ _ (ap not past))

  push_noticed :
      (q : Resequencer A) (seq : ℕ) (pkt : A)
      → ahead seq (start q seq).next ≡ true
      → (push q seq pkt).asked ≡ (notice (start q seq) seq).1
  unfolding push
  push_noticed q seq pkt here = ap (λ (p : Pushed A). p.asked) (if_false _ _ (ap not here))

  -- Only a packet at or ahead of the next position makes a request.
  asked_ahead :
      (q : Resequencer A) (seq : ℕ) (pkt : A) {r : ℕ × ℕ}
      → (push q seq pkt).asked ≡ some r
      → ahead seq (start q seq).next ≡ true
  asked_ahead q seq pkt e = elim (Bool-cases (ahead seq (start q seq).next)) [
    | inl here ↦ here
    | inr past ↦ absurd (ground (arith, push_late q seq pkt past))
  ]

  -- A request names the missing position and the number of positions up to the packet that showed
  -- the gap, and it never asks for more than the window.
  pub push_asks :
      (q : Resequencer A) (seq : ℕ) (pkt : A) (first count : ℕ)
      → (push q seq pkt).asked ≡ some (first, count)
      → (first ≡ (start q seq).next)
        × (count ≡ sub16 seq first)
        × (0 < count)
        × (count ≤ seq_window)
  push_asks q seq pkt first count e =
      let a =
        notice-Asks (start q seq) seq (first, count)
          (sym (push_noticed q seq pkt (asked_ahead q seq pkt e)) ∙ e) in
      (a.first, a.count ∙ ap (sub16 seq) (sym a.first), a.some_missing, a.in_window)

  -- From a valid state, once a gap has been asked about, the packet that arrives next while the
  -- gap is open does not ask again.
  pub asked_once :
      {q : Resequencer A} (seq : ℕ) (pkt : A) (first count : ℕ)
      → IsValid (λ k v. Unit {0}) q
      → seq < 2 ^ 16
      → (push q seq pkt).asked ≡ some (first, count)
      → (push q seq pkt).queue.next ≡ first
      → (seq' : ℕ) (pkt' : A) → (push (push q seq pkt).queue seq' pkt').asked ≡ none
  asked_once {q} seq pkt first count v hs e open_gap seq' pkt' =
      let p = push q seq pkt in
      let m = push-Emits (λ k x. Unit {0}) seq pkt v hs tt in
      let here = asked_ahead q seq pkt e in
      let a =
        notice-Asks (start q seq) seq (first, count) (sym (push_noticed q seq pkt here) ∙ e) in
      let same = m.same_rest here in
      let on : start p.queue seq' ≡ p.queue = start_on (λ k x. Unit {0}) p.queue seq' m.started in
      elim (Bool-cases (ahead seq' (start p.queue seq').next)) [
        | inr past ↦ push_late p.queue seq' pkt' past
        | inl again ↦
            push_noticed p.queue seq' pkt' again
            ∙ notice_again (start p.queue seq') seq'
                (ap (λ (x : Resequencer A). x.have_requested) on
                  ∙ ap (λ (t : Bool × Bool × ℕ × Bool). t.3) same
                  ∙ a.remembered.0)
                (ap (λ (x : Resequencer A). x.requested) on
                  ∙ ap (λ (t : Bool × Bool × ℕ × Bool). t.2) same
                  ∙ a.remembered.1
                  ∙ sym a.first
                  ∙ sym open_gap
                  ∙ sym (ap (λ (x : Resequencer A). x.next) on))
      ]
