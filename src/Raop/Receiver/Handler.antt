-- ===== src/Raop/Receiver/Handler.antt =====
-- What the session's handler sees of a run, and what becomes of the sockets.
use sonospoof.Base.{
  ℕ, ◌+◌, ◌≡◌, refl, ap, ◌∙◌, Bool, true, false, List, [], ◌∷◌, ◌++◌, map, Option, none, some,
  some-injective, arith, Bool-cases, Option-cases, inl, inr,
}
use sonospoof.Raop.Receiver.Calls.{Call, Sees, starts, stops, launches, halts, Sees-count, bit}
use sonospoof.Raop.Rtp.{packet}
use sonospoof.Raop.Sdp.{Sdp}
use sonospoof.Raop.Receiver.{
  Effect, launched, stopped, volume, opened, closed, missed, Receiver, Transport, Request, options,
  get_parameter, pause, flush, record_, teardown_, unknown, announce, setup, set_parameter,
  announced, close_udp, bound, set_up, call, start_recording, tear_down, set_volumes, handle,
  close_if_owner, read_packet, Event, request, hung_up, datagram, shut, step, run,
}

-- A handler that is launched only when it is stopped, and stopped only when it is launched.
abbrev pub follow : Bool → List Effect → Option Bool
follow on [] = some on
follow true (launched name ∷ es) = none
follow false (launched name ∷ es) = follow true es
follow true (stopped ∷ es) = follow false es
follow false (stopped ∷ es) = none
follow on (volume db ∷ es) = follow on es
follow on (opened s ∷ es) = follow on es
follow on (closed s ∷ es) = follow on es
follow on (missed m ∷ es) = follow on es

abbrev pub then_follow : Option Bool → List Effect → Option Bool
then_follow none es = none
then_follow (some on) es = follow on es

follow-append :
    (on : Bool) (es fs : List Effect) → follow on (es ++ fs) ≡ then_follow (follow on es) fs
follow-append on [] fs = refl
follow-append true (launched name ∷ es) fs = refl
follow-append false (launched name ∷ es) fs = follow-append true es fs
follow-append true (stopped ∷ es) fs = follow-append false es fs
follow-append false (stopped ∷ es) fs = refl
follow-append on (volume db ∷ es) fs = follow-append on es fs
follow-append on (opened s ∷ es) fs = follow-append on es fs
follow-append on (closed s ∷ es) fs = follow-append on es fs
follow-append on (missed m ∷ es) fs = follow-append on es fs

follow-closed : (on : Bool) (ss : List ℕ) → follow on (map closed ss) ≡ some on
follow-closed on [] = refl
follow-closed on (s ∷ ss) = follow-closed on ss

follow-count :
    (on : Bool) (es : List Effect) (end : Bool)
    → follow on es ≡ some end
    → launches es + bit on ≡ halts es + bit end
follow-count on [] end e = omega (arith, ap bit (some-injective on end e))
follow-count true (launched name ∷ es) end e = cc
follow-count false (launched name ∷ es) end e = omega (arith, follow-count true es end e)
follow-count true (stopped ∷ es) end e = omega (arith, follow-count false es end e)
follow-count false (stopped ∷ es) end e = cc
follow-count on (volume db ∷ es) end e = follow-count on es end e
follow-count on (opened s ∷ es) end e = follow-count on es end e
follow-count on (closed s ∷ es) end e = follow-count on es end e
follow-count on (missed m ∷ es) end e = follow-count on es end e

follow-missed : (on : Bool) (ms : List (ℕ × ℕ)) → follow on (map missed ms) ≡ some on
follow-missed on [] = refl
follow-missed on (m ∷ ms) = follow-missed on ms

-- A call that keeps a handler set, and that the handler can follow.
abbrev Tells : Receiver → Receiver × List Effect → Type 0
Tells r out = (out.0.handler ≡ true) × (follow r.running out.1 ≡ some out.0.running)

tear_down-Tells : (r : Receiver) → r.handler ≡ true → Tells r (tear_down r)
unfolding tear_down close_udp call
tear_down-Tells r h = (
  h,
  rw h (elim (Bool-cases r.running) [
    | inl on ↦ rw on (
        follow-append true (map closed r.udp) (stopped ∷ [])
        ∙ ap (λ o. then_follow o (stopped ∷ [])) (follow-closed true r.udp))
    | inr off ↦ rw off (
        follow-append false (map closed r.udp) []
        ∙ ap (λ o. then_follow o []) (follow-closed false r.udp))
  ]),
)

start-Tells : (r : Receiver) → r.handler ≡ true → Tells r (start_recording r)
unfolding start_recording call
start-Tells r h = ground arith

volumes :
    (r : Receiver) (dbs : List ℕ)
    → r.handler ≡ true
    → follow r.running (set_volumes r dbs) ≡ some r.running
unfolding set_volumes call
volumes r [] h = refl
volumes r (db ∷ dbs) h = rw h (volumes r dbs h)

abbrev Tells₃ : {A : Type 0} → Receiver → A × Receiver × List Effect → Type 0
Tells₃ r (s, r', es) = Tells r (r', es)

closed_then_opened :
    (r : Receiver) (ss : List ℕ)
    → follow r.running (map closed r.udp ++ map opened ss) ≡ some r.running
closed_then_opened r ss =
    follow-append r.running (map closed r.udp) (map opened ss)
    ∙ ap (λ o. then_follow o (map opened ss)) (follow-closed r.running r.udp)
    ∙ opens ss
  where
    opens : (ss : List ℕ) → follow r.running (map opened ss) ≡ some r.running
    opens [] = refl
    opens (s ∷ ss) = opens ss

set_up-Tells : (r : Receiver) (t : Transport) → r.handler ≡ true → Tells₃ r (set_up r t)
unfolding set_up close_udp bound
set_up-Tells r t h = elim (Option-cases t.server) [
  | inl none_s ↦ rw none_s (ground (arith, follow-closed r.running r.udp))
  | inr (s, some_s) ↦ rw some_s (elim (Option-cases t.control) [
    | inl none_c ↦ rw none_c (ground (arith, closed_then_opened r (s ∷ [])))
    | inr (c, some_c) ↦ rw some_c (elim (Option-cases t.timing) [
      | inl none_t ↦ rw none_t (ground (arith, closed_then_opened r (s ∷ c ∷ [])))
      | inr (m, some_m) ↦ rw some_m (ground (arith, closed_then_opened r (s ∷ c ∷ m ∷ [])))
    ])
  ])
]

announced-Tells :
    (r : Receiver) (conn : ℕ) (sdp : Sdp)
    → r.handler ≡ true
    → Tells₃ r (handle r conn (announce (some sdp)))
unfolding handle announced
announced-Tells r conn sdp h = ground arith

handle-Tells :
    (r : Receiver) (conn : ℕ) (req : Request) → r.handler ≡ true → Tells₃ r (handle r conn req)
unfolding handle
handle-Tells r conn options h = (h, refl)
handle-Tells r conn (announce none) h = (h, refl)
handle-Tells r conn (announce (some sdp)) h = announced-Tells r conn sdp h
handle-Tells r conn (setup t) h = set_up-Tells r t h
handle-Tells r conn record_ h = start-Tells r h
handle-Tells r conn flush h = (h, refl)
handle-Tells r conn teardown_ h = tear_down-Tells r h
handle-Tells r conn (set_parameter dbs) h = (h, volumes r dbs h)
handle-Tells r conn get_parameter h = (h, refl)
handle-Tells r conn pause h = (h, refl)
handle-Tells r conn unknown h = (h, refl)

close-Tells : (r : Receiver) (conn : ℕ) → r.handler ≡ true → Tells r (close_if_owner r conn)
unfolding close_if_owner
close-Tells r conn h = ground (arith, tear_down-Tells r h)

module _ (inverse : List ℕ → List ℕ) where
  step-Tells : (r : Receiver) (e : Event) → r.handler ≡ true → Tells r (step inverse r e)
  unfolding step read_packet
  step-Tells r (request conn req) h = handle-Tells r conn req h
  step-Tells r (hung_up conn) h = close-Tells r conn h
  step-Tells r (datagram pkt) h = elim (Option-cases r.dec) [
    | inl e ↦ rw e (h, refl)
    | inr (dec, e) ↦ rw e (
      h,
      follow-missed r.running
          (packet inverse (record dec { ring = r.ring; asked = [] }) pkt).1.asked,
    )
  ]
  step-Tells r shut h = tear_down-Tells r h

  -- Launches of Start and calls of Stop alternate.
  run-alternates :
      (r : Receiver) (es : List Event)
      → r.handler ≡ true
      → let (r', effects) = run inverse r es in
        (r'.handler ≡ true) × (follow r.running effects ≡ some r'.running)
  unfolding run
  run-alternates r [] h = (h, refl)
  run-alternates r (e ∷ es) h =
      let (r₁, now) = step inverse r e in
      let (h₁, one) = step-Tells r e h in
      let (h₂, later) = run-alternates r₁ es h₁ in
      (
        h₂,
        follow-append r.running now (run inverse r₁ es).1
            ∙ ap (λ o. then_follow o (run inverse r₁ es).1) one
            ∙ later,
      )

  -- Over any run of requests, datagrams and closed connections, launches of Start and calls of Stop
  -- alternate, beginning with a launch unless the session runs already, and the session runs at the
  -- end exactly if the last of them was a launch. In whatever order the launched Starts reach the
  -- handler, each once after its launch, at the end it has seen as many starts as stops, and one more
  -- start if the session runs, or one less if it ran before.
  pub run-follow :
      (r : Receiver) (es : List Event) (cs : List Call)
      → r.handler ≡ true
      → Sees [] (run inverse r es).1 cs
      → let (r', effects) = run inverse r es in
        (follow r.running effects ≡ some r'.running)
        × (starts cs + bit r.running ≡ stops cs + bit r'.running)
  run-follow r es cs h seen =
      let (r', effects) = run inverse r es in
      let (kept, alternate) = run-alternates r es h in
      let (a, b) = Sees-count seen in
      (alternate, omega (arith, a, b, follow-count r.running effects r'.running alternate))
