-- ===== src/Raop/Receiver/Session.antt =====
-- The owner of a session: who can end it, and what is left when it ends.
use sonospoof.Base.{
  ℕ, ◌+◌, ◌≡◌, ◌≢◌, ◌⊎◌, refl, ap, sym, ◌∙◌, true, false, List, [], ◌∷◌, ◌++◌, map, Option, none,
  some, arith, if◌then◌else◌, Bool-cases, Option-cases, inl, inr, ◌==◌, ltb, if_true, if_false,
  subst,
}
use sonospoof.Audio.Ring
use sonospoof.Audio.Ring.{Ring}
use sonospoof.Raop.Rtp.{AudioDecoder, packet, on_missing}
use sonospoof.Raop.Receiver.{
  Effect, launched, stopped, volume, opened, closed, missed, Receiver, Transport, options,
  get_parameter, pause, flush, record_, teardown_, unknown, announce, setup, set_parameter,
  close_udp, bound, install, set_up, call, start_recording, tear_down, set_volumes, handle,
  close_if_owner, read_packet, Event, request, hung_up, datagram, shut, step, run,
}

-- A decoder that has been made of `a` by datagrams alone, each decoded into some ring, and by being
-- set to ask for what is missing.
pub data Carries (inverse : List ℕ → List ℕ) (a : AudioDecoder) : AudioDecoder → Type 0 where
  untouched : Carries inverse a a
  fed :
      {b : AudioDecoder} (ring : Ring) (pkt : List ℕ)
      → Carries inverse a b
      → Carries inverse a (packet inverse (record b { ring = ring; asked = [] }) pkt).1
  asking : {b : AudioDecoder} → Carries inverse a b → Carries inverse a (on_missing b)

-- A session that streams, and belongs to a connection; its decoder came of `a`.
pub record Live (inverse : List ℕ → List ℕ) (owner : ℕ) (a : AudioDecoder) (r : Receiver)
    : Type 0 where
  pub owned : r.owner ≡ some owner
  pub runs : r.running ≡ true
  pub decoder : AudioDecoder
  pub decodes : r.dec ≡ some decoder
  pub carried : Carries inverse a decoder

-- What does not end or replace the session of a connection: anything but an ANNOUNCE, a TEARDOWN,
-- the end of that connection, and the end of the receiver.
abbrev pub Harmless : ℕ → Event → Type 0
Harmless owner (request conn (announce sdp)) = ⊥
Harmless owner (request conn teardown_) = ⊥
Harmless owner (hung_up conn) = conn ≢ owner
Harmless owner shut = ⊥
Harmless owner e = Unit {0}

abbrev pub AllHarmless : ℕ → List Event → Type 0
AllHarmless owner [] = Unit {0}
AllHarmless owner (e ∷ es) = Harmless owner e × AllHarmless owner es

-- How often Start is launched or Stop is called.
abbrev pub calls : List Effect → ℕ
calls [] = 0
calls (launched name ∷ es) = 1 + calls es
calls (stopped ∷ es) = 1 + calls es
calls (e ∷ es) = calls es

calls-append : (es fs : List Effect) → calls (es ++ fs) ≡ calls es + calls fs
calls-append [] fs = omega arith
calls-append (launched name ∷ es) fs = omega (arith, calls-append es fs)
calls-append (stopped ∷ es) fs = omega (arith, calls-append es fs)
calls-append (opened s ∷ es) fs = calls-append es fs
calls-append (closed s ∷ es) fs = calls-append es fs
calls-append (missed m ∷ es) fs = calls-append es fs
calls-append (volume db ∷ es) fs = calls-append es fs

calls-missed : (ms : List (ℕ × ℕ)) → calls (map missed ms) ≡ 0
calls-missed [] = refl
calls-missed (m ∷ ms) = calls-missed ms

calls-closed : (ss : List ℕ) → calls (map closed ss) ≡ 0
calls-closed [] = refl
calls-closed (s ∷ ss) = calls-closed ss

after_closing : (ss : List ℕ) (es : List Effect) → calls es ≡ 0 → calls (map closed ss ++ es) ≡ 0
after_closing ss es h = omega (arith, calls-append (map closed ss) es, calls-closed ss)

-- A SETUP, which binds other sockets.
abbrev IsSetup : Event → Type 0
IsSetup (request conn (setup t)) = Unit {0}
IsSetup e = ⊥

abbrev pub HasSetup : List Event → Type 0
HasSetup [] = ⊥
HasSetup (e ∷ es) = IsSetup e ⊎ HasSetup es

-- The sockets, the requester and the name of a session stay.
abbrev pub Keeps : Receiver → Receiver → Type 0
Keeps r r' = (r'.udp ≡ r.udp) × (r'.resend ≡ r.resend) × (r'.session_name ≡ r.session_name)

Keeps-trans : (r r₁ r₂ : Receiver) → Keeps r r₁ → Keeps r₁ r₂ → Keeps r r₂
Keeps-trans r r₁ r₂ (x, y, z) (x', y', z') = (x' ∙ x, y' ∙ y, z' ∙ z)

volumes : (r : Receiver) (dbs : List ℕ) → calls (set_volumes r dbs) ≡ 0
unfolding set_volumes call
volumes r [] = refl
volumes r (db ∷ dbs) = elim (Bool-cases r.handler) [
  | inl set ↦ rw set (volumes r dbs)
  | inr unset ↦ rw unset (volumes r dbs)
]

other_conn :
    {owner : ℕ} {r : Receiver} (conn : ℕ)
    → r.owner ≡ some owner
    → conn ≢ owner
    → close_if_owner r conn ≡ (r, [])
unfolding close_if_owner
other_conn {owner} conn own ne = rw own (if_false {b = owner == conn} _ _ (ground arith))

module _ (inverse : List ℕ → List ℕ) (owner : ℕ) (a : AudioDecoder) where
  abbrev Stays : Receiver × List Effect → Type 0
  Stays out = Live inverse owner a out.0 × (calls out.1 ≡ 0)

  abbrev Stays₃ : {A : Type 0} → A × Receiver × List Effect → Type 0
  Stays₃ (s, r', es) = Stays (r', es)

  -- The decoder that `setup` leaves.
  installed :
      (requester : Option ℕ) (b : AudioDecoder)
      → Carries inverse a b
      → (b' : AudioDecoder) × (install requester (some b) ≡ some b') × Carries inverse a b'
  unfolding install
  installed none b c = (b, refl, c)
  installed (some port) b c = (_, refl, Carries.asking c)

  no_sockets-Live :
      {r : Receiver} → Live inverse owner a r → Live inverse owner a (record r { udp = [] })
  no_sockets-Live l = record {
    owned = l.owned;
    runs = l.runs;
    decoder = l.decoder;
    decodes = l.decodes;
    carried = l.carried;
  }

  bound-Live :
      {r : Receiver} (port s c m : ℕ)
      → Live inverse owner a r
      → Live inverse owner a (bound r port s c m)
  unfolding bound
  bound-Live {r} port s c m l =
      let requester : Option ℕ = if ltb 0 port then some port else none in
      let (b, e, carried) = installed requester l.decoder l.carried in
      record {
        owned = l.owned;
        runs = l.runs;
        decoder = b;
        decodes = ap (install requester) l.decodes ∙ e;
        carried = carried;
      }

  set_up-Stays : {r : Receiver} (t : Transport) → Live inverse owner a r → Stays₃ (set_up r t)
  unfolding set_up close_udp
  set_up-Stays {r} t l = elim (Bool-cases t.is_udp) [
    | inr other ↦ rw other (l, refl)
    | inl udp ↦ rw udp (elim (Option-cases t.server) [
      | inl none_s ↦ rw none_s (no_sockets-Live l, calls-closed r.udp)
      | inr (s, some_s) ↦ rw some_s (elim (Option-cases t.control) [
        | inl none_c ↦ rw none_c (no_sockets-Live l, after_closing r.udp (opened s ∷ []) refl)
        | inr (c, some_c) ↦ rw some_c (elim (Option-cases t.timing) [
          | inl none_t ↦
              rw none_t (no_sockets-Live l, after_closing r.udp (opened s ∷ opened c ∷ []) refl)
          | inr (m, some_m) ↦ rw some_m (
            bound-Live t.control_port s c m (no_sockets-Live l),
            after_closing r.udp (opened s ∷ opened c ∷ opened m ∷ []) refl,
          )
        ])
      ])
    ])
  ]

  start-same : {r : Receiver} → Live inverse owner a r → start_recording r ≡ (r, [])
  unfolding start_recording
  start-same {r} l = if_true _ _ l.runs

  read-Live :
      {r : Receiver} (pkt : List ℕ)
      → Live inverse owner a r
      → Stays₃ (read_packet inverse r pkt) × Keeps r (read_packet inverse r pkt).1
  unfolding read_packet
  read-Live {r} pkt l = rw l.decodes (
    (
      record {
        owned = l.owned;
        runs = l.runs;
        decoder = _;
        decodes = refl;
        carried = Carries.fed r.ring pkt l.carried;
      },
      calls-missed (packet inverse (record l.decoder { ring = r.ring; asked = [] }) pkt).1.asked,
    ),
    (refl, refl, refl),
  )

  -- A step of a session that stays, and what it keeps.
  abbrev GoesOn : Receiver → Event → Receiver × List Effect → Type 0
  GoesOn r e out = Stays out × (Keeps r out.0 ⊎ IsSetup e)

  step-GoesOn :
      {r : Receiver} (e : Event)
      → Live inverse owner a r
      → Harmless owner e
      → GoesOn r e (step inverse r e)
  unfolding step handle
  step-GoesOn (request conn options) l h = ((l, refl), inl (refl, refl, refl))
  step-GoesOn (request conn get_parameter) l h = ((l, refl), inl (refl, refl, refl))
  step-GoesOn (request conn pause) l h = ((l, refl), inl (refl, refl, refl))
  step-GoesOn (request conn unknown) l h = ((l, refl), inl (refl, refl, refl))
  step-GoesOn (request conn flush) l h = (
    (
      record {
        owned = l.owned;
        runs = l.runs;
        decoder = l.decoder;
        decodes = l.decodes;
        carried = l.carried;
      },
      refl,
    ),
    inl (refl, refl, refl),
  )
  step-GoesOn {r} (request conn record_) l h =
      subst (GoesOn r (request conn record_)) (sym (start-same l))
        ((l, refl), inl (refl, refl, refl))
  step-GoesOn (request conn teardown_) l h = absurd h
  step-GoesOn (request conn (announce sdp)) l h = absurd h
  step-GoesOn (request conn (setup t)) l h = (set_up-Stays t l, inr tt)
  step-GoesOn {r} (request conn (set_parameter dbs)) l h =
      ((l, volumes r dbs), inl (refl, refl, refl))
  step-GoesOn {r} (hung_up conn) l h =
      subst (GoesOn r (hung_up conn)) (sym (other_conn conn l.owned h))
        ((l, refl), inl (refl, refl, refl))
  step-GoesOn (datagram pkt) l h = let (stays, kept) = read-Live pkt l in (stays, inl kept)
  step-GoesOn shut l h = absurd h

  -- A session that streams goes on for its owner, Start is not launched and Stop is not called,
  -- whatever other connections request or do when they end, and whatever datagrams arrive: until an
  -- ANNOUNCE, a TEARDOWN, the end of the owner's connection, or of the receiver. Nothing but the
  -- datagrams changes its decoder, unless it is set to ask for what is missing; and its sockets, its
  -- requester and its name stay, unless there is a SETUP, which takes the sockets of a session
  -- whoever requests it.
  pub run-Live :
      {r : Receiver} (es : List Event)
      → Live inverse owner a r
      → AllHarmless owner es
      → let (r', effects) = run inverse r es in
        Live inverse owner a r' × (calls effects ≡ 0) × (Keeps r r' ⊎ HasSetup es)
  unfolding run
  run-Live [] l h = (l, refl, inl (refl, refl, refl))
  run-Live {r} (e ∷ es) l h =
      let (r₁, now) = step inverse r e in
      let ((l₁, none_now), kept) = step-GoesOn e l h.0 in
      let (l₂, none_later, kept_later) = run-Live {r = r₁} es l₁ h.1 in
      (
        l₂,
        omega (arith, calls-append now (run inverse r₁ es).1),
        elim kept [
          | inr is_setup ↦ inr (inl is_setup)
          | inl k ↦ elim kept_later [
            | inr has ↦ inr (inr has)
            | inl k' ↦ inl (Keeps-trans r r₁ (run inverse r₁ es).0 k k')
          ]
        ],
      )

-- Nothing is left of a session.
pub record Idle (r : Receiver) : Type 0 where
  pub no_owner : r.owner ≡ none
  pub no_decoder : r.dec ≡ none
  pub no_requester : r.resend ≡ none
  pub stopped : r.running ≡ false
  pub no_sockets : r.udp ≡ []
  pub no_samples : r.ring.n ≡ 0

tear_down-Idle : (r : Receiver) → Idle (tear_down r).0
unfolding tear_down close_udp Ring.reset
tear_down-Idle r = record {
  no_owner = refl;
  no_decoder = refl;
  no_requester = refl;
  stopped = refl;
  no_sockets = refl;
  no_samples = refl;
}

owner-close : (r : Receiver) (conn : ℕ) → r.owner ≡ some conn → close_if_owner r conn ≡ tear_down r
unfolding close_if_owner
owner-close r conn own = rw own (if_true {b = conn == conn} _ _ (ground arith))

-- Nothing is left, and nothing that arrives late changes that.
abbrev pub Gone : (List ℕ → List ℕ) → Receiver → Type 0
Gone inverse r =
    Idle r
    × ((pkt : List ℕ) → step inverse r (datagram pkt) ≡ (r, []))
    × ((other : ℕ) → step inverse r (hung_up other) ≡ (r, []))

tear_down-Gone : (inverse : List ℕ → List ℕ) (r : Receiver) → Gone inverse (tear_down r).0
unfolding step read_packet close_if_owner tear_down close_udp Ring.reset
tear_down-Gone inverse r = (tear_down-Idle r, λ pkt. refl, λ other. refl)

-- When the owner of a session hangs up, nothing is left of it: a datagram that still arrives is
-- ignored, and when other connections end, nothing is torn down a second time.
pub hung_up-Gone :
    (inverse : List ℕ → List ℕ) (r : Receiver) (conn : ℕ)
    → r.owner ≡ some conn
    → Gone inverse (step inverse r (hung_up conn)).0
unfolding step
hung_up-Gone inverse r conn own =
    subst (λ (out : Receiver × List Effect). Gone inverse out.0) (sym (owner-close r conn own))
      (tear_down-Gone inverse r)
