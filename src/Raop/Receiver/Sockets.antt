-- ===== src/Raop/Receiver/Sockets.antt =====
-- The sockets that a receiver opens and closes, and those that a failed `setup` leaves open.
use sonospoof.Base.{
  ℕ, suc, ◌+◌, ◌≡◌, refl, ap, List, [], ◌∷◌, ◌++◌, map, Option, none, some, arith, length,
  if◌then◌else◌, Bool-cases, Option-cases, inl, inr,
}
use sonospoof.Raop.Rtp.{AudioDecoder, packet}
use sonospoof.Raop.Sdp.{Sdp}
use sonospoof.Raop.Receiver.{
  Effect, launched, stopped, volume, opened, closed, missed, Receiver, Transport, Request, options,
  get_parameter, pause, flush, record_, teardown_, unknown, announce, setup, set_parameter,
  announced, close_udp, bound, set_up, call, start_recording, tear_down, set_volumes, handle,
  close_if_owner, read_packet, Event, request, hung_up, datagram, shut, step, run,
}

abbrev pub openings : List Effect → ℕ
openings [] = 0
openings (opened s ∷ es) = suc (openings es)
openings (closed s ∷ es) = openings es
openings (missed m ∷ es) = openings es
openings (launched name ∷ es) = openings es
openings (stopped ∷ es) = openings es
openings (volume db ∷ es) = openings es

abbrev pub closings : List Effect → ℕ
closings [] = 0
closings (opened s ∷ es) = closings es
closings (missed m ∷ es) = closings es
closings (closed s ∷ es) = suc (closings es)
closings (launched name ∷ es) = closings es
closings (stopped ∷ es) = closings es
closings (volume db ∷ es) = closings es

-- The binds of a `setup` that come before one that fails.
abbrev pub lost_binds : Transport → ℕ
lost_binds t = if t.is_udp then before t.server t.control t.timing else 0
  where
    before : Option ℕ → Option ℕ → Option ℕ → ℕ
    before none c m = 0
    before (some s) none m = 1
    before (some s) (some c) none = 2
    before (some s) (some c) (some m) = 0

abbrev lost_by : Request → ℕ
lost_by (setup t) = lost_binds t
lost_by req = 0

abbrev lost_at : Event → ℕ
lost_at (request conn req) = lost_by req
lost_at e = 0

abbrev pub lost_sockets : List Event → ℕ
lost_sockets [] = 0
lost_sockets (e ∷ es) = lost_at e + lost_sockets es

openings-append : (es fs : List Effect) → openings (es ++ fs) ≡ openings es + openings fs
openings-append [] fs = omega arith
openings-append (opened s ∷ es) fs = omega (arith, openings-append es fs)
openings-append (closed s ∷ es) fs = openings-append es fs
openings-append (missed m ∷ es) fs = openings-append es fs
openings-append (launched name ∷ es) fs = openings-append es fs
openings-append (stopped ∷ es) fs = openings-append es fs
openings-append (volume db ∷ es) fs = openings-append es fs

closings-append : (es fs : List Effect) → closings (es ++ fs) ≡ closings es + closings fs
closings-append [] fs = omega arith
closings-append (opened s ∷ es) fs = closings-append es fs
closings-append (missed m ∷ es) fs = closings-append es fs
closings-append (closed s ∷ es) fs = omega (arith, closings-append es fs)
closings-append (launched name ∷ es) fs = closings-append es fs
closings-append (stopped ∷ es) fs = closings-append es fs
closings-append (volume db ∷ es) fs = closings-append es fs

closes : (ss : List ℕ) → (openings (map closed ss) ≡ 0) × (closings (map closed ss) ≡ length ss)
closes [] = (refl, refl)
closes (s ∷ ss) = let (o, c) = closes ss in (o, ap suc c)

no_sockets : (ms : List (ℕ × ℕ)) → (openings (map missed ms) ≡ 0) × (closings (map missed ms) ≡ 0)
no_sockets [] = (refl, refl)
no_sockets (m ∷ ms) = no_sockets ms

-- What was held and what was opened is what was closed, what is held, and what got lost.
abbrev Balances : ℕ → Receiver → Receiver × List Effect → Type 0
Balances lost r out = length r.udp + openings out.1 ≡ closings out.1 + length out.0.udp + lost

after_closing :
    (r : Receiver) (es : List Effect)
    → (openings (map closed r.udp ++ es) ≡ openings es)
      × (closings (map closed r.udp ++ es) ≡ length r.udp + closings es)
after_closing r es =
    let (o, c) = closes r.udp in
    (
      omega (arith, openings-append (map closed r.udp) es),
      omega (arith, closings-append (map closed r.udp) es),
    )

tear_down-Balances : (r : Receiver) → Balances 0 r (tear_down r)
unfolding tear_down close_udp call
tear_down-Balances r = elim (Bool-cases r.running) [
  | inl on ↦ rw on (elim (Bool-cases r.handler) [
    | inl set ↦ rw set (omega (arith, after_closing r (stopped ∷ [])))
    | inr unset ↦ rw unset (omega (arith, after_closing r []))
  ])
  | inr off ↦ rw off (omega (arith, after_closing r []))
]

start-Balances : (r : Receiver) → Balances 0 r (start_recording r)
unfolding start_recording call
start-Balances r = ground arith

volumes :
    (r : Receiver) (dbs : List ℕ)
    → (openings (set_volumes r dbs) ≡ 0) × (closings (set_volumes r dbs) ≡ 0)
unfolding set_volumes call
volumes r [] = (refl, refl)
volumes r (db ∷ dbs) = elim (Bool-cases r.handler) [
  | inl set ↦ rw set (volumes r dbs)
  | inr unset ↦ rw unset (volumes r dbs)
]

abbrev Balances₃ : {A : Type 0} → ℕ → Receiver → A × Receiver × List Effect → Type 0
Balances₃ lost r (s, r', es) = Balances lost r (r', es)

set_up-Balances : (r : Receiver) (t : Transport) → Balances₃ (lost_binds t) r (set_up r t)
unfolding set_up close_udp bound
set_up-Balances r t = elim (Option-cases t.server) [
  | inl none_s ↦ rw none_s (ground (arith, closes r.udp))
  | inr (s, some_s) ↦ rw some_s (elim (Option-cases t.control) [
    | inl none_c ↦ rw none_c (ground (arith, after_closing r (opened s ∷ [])))
    | inr (c, some_c) ↦ rw some_c (elim (Option-cases t.timing) [
      | inl none_t ↦ rw none_t (ground (arith, after_closing r (opened s ∷ opened c ∷ [])))
      | inr (m, some_m) ↦
          rw some_m (ground (arith, after_closing r (opened s ∷ opened c ∷ opened m ∷ [])))
    ])
  ])
]

announced-Balances :
    (r : Receiver) (conn : ℕ) (sdp : Sdp) → Balances₃ 0 r (handle r conn (announce (some sdp)))
unfolding handle announced
announced-Balances r conn sdp = ground arith

handle-Balances :
    (r : Receiver) (conn : ℕ) (req : Request) → Balances₃ (lost_by req) r (handle r conn req)
unfolding handle
handle-Balances r conn options = omega arith
handle-Balances r conn (announce none) = omega arith
handle-Balances r conn (announce (some sdp)) = announced-Balances r conn sdp
handle-Balances r conn (setup t) = set_up-Balances r t
handle-Balances r conn record_ = start-Balances r
handle-Balances r conn flush = omega arith
handle-Balances r conn teardown_ = tear_down-Balances r
handle-Balances r conn (set_parameter dbs) = omega (arith, volumes r dbs)
handle-Balances r conn get_parameter = omega arith
handle-Balances r conn pause = omega arith
handle-Balances r conn unknown = omega arith

close-Balances : (r : Receiver) (conn : ℕ) → Balances 0 r (close_if_owner r conn)
unfolding close_if_owner
close-Balances r conn = ground (arith, tear_down-Balances r)

module _ (inverse : List ℕ → List ℕ) where
  step-Balances : (r : Receiver) (e : Event) → Balances (lost_at e) r (step inverse r e)
  unfolding step read_packet
  step-Balances r (request conn req) = handle-Balances r conn req
  step-Balances r (hung_up conn) = close-Balances r conn
  step-Balances r (datagram pkt) = elim (Option-cases r.dec) [
    | inl e ↦ rw e (omega arith)
    | inr (dec, e) ↦
        let a : AudioDecoder = (packet inverse (record dec { ring = r.ring; asked = [] }) pkt).1 in
        rw e (omega (arith, no_sockets a.asked))
  ]
  step-Balances r shut = tear_down-Balances r

  -- Over any run, the sockets held before and those opened are those closed, those held after, and
  -- those that were bound by a `setup` whose later bind failed: such sockets are never closed.
  pub run-Balances :
      (r : Receiver) (es : List Event)
      → let (r', effects) = run inverse r es in
        length r.udp + openings effects ≡ closings effects + length r'.udp + lost_sockets es
  unfolding run
  run-Balances r [] = omega arith
  run-Balances r (e ∷ es) =
      let (r₁, now) = step inverse r e in
      let later : List Effect = (run inverse r₁ es).1 in
      let ih = run-Balances r₁ es in
      omega (arith, step-Balances r e, ih, openings-append now later, closings-append now later)
