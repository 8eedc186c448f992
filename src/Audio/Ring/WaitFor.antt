-- ===== src/Audio/Ring/WaitFor.antt =====
-- `WaitFor`, against every sequence of what can happen meanwhile.
use sonospoof.Base.{
  ℕ, ◌≤◌, ◌<◌, ◌≡◌, refl, ap, sym, subst, ◌∙◌, ◌++◌, ◌⊎◌, Bool, false, true, List, [], ◌∷◌, arith,
  leb, Bool-cases, if_true, if_false, inl, inr,
}
use sonospoof.Audio.Ring.{
  Ring, write, reset, Event, written, flushed, woken, expired, returned, Outcome, wait_loop,
  wait_for,
}
use sonospoof.Audio.Ring.Inv.{IsValid, write-IsValid, reset-IsValid}

-- The deadline fires.
abbrev pub Expires : List Event → Type 0
Expires [] = ⊥
Expires (written xs ∷ es) = Expires es
Expires (flushed ∷ es) = Expires es
Expires (woken ∷ es) = Expires es
Expires (expired ∷ es) = Unit {0}

-- The ring after events, with each signal that was received taken.
abbrev pub passed : List Event → Ring → Ring
passed [] q = q
passed (written xs ∷ es) q = passed es (write q xs)
passed (flushed ∷ es) q = passed es (reset q)
passed (woken ∷ es) q = passed es (record q { wake = false })
passed (expired ∷ es) q = passed es q

-- No deadline, and no signal that is received while the ring holds enough.
abbrev pub InVain : ℕ → List Event → Ring → Type 0
InVain want [] q = Unit {0}
InVain want (written xs ∷ es) q = InVain want es (write q xs)
InVain want (flushed ∷ es) q = InVain want es (reset q)
InVain want (woken ∷ es) q =
    ((q.wake ≡ false) ⊎ (q.n < want)) × InVain want es (record q { wake = false })
InVain want (expired ∷ es) q = ⊥

-- The event that ends a wait, and the answer: a signal, with enough held, or the deadline.
abbrev pub Releases : ℕ → Ring → Event → Bool → Type 0
Releases want q (written xs) b = ⊥
Releases want q flushed b = ⊥
Releases want q woken b = (q.wake ≡ true) × (want ≤ q.n) × (b ≡ true)
Releases want q expired b = b ≡ leb want q.n

-- A wait that blocks through `before`, is released by `last`, and returns.
pub record Waited (es : List Event) (want : ℕ) (q : Ring) (out : Outcome Bool × Ring) : Type 0 where
  pub answer : Bool
  pub before : List Event
  pub last : Event
  pub rest : List Event
  pub split : es ≡ before ++ last ∷ rest
  pub in_vain : InVain want before q
  pub released : Releases want (passed before q) last answer
  pub returns : out ≡ (returned answer, passed (last ∷ []) (passed before q))

-- A wait returns at once if enough is held, and blocks otherwise.
abbrev pub Waits : List Event → ℕ → Ring → Outcome Bool × Ring → Type 0
Waits es want q out =
    ((want ≤ q.n) × (out ≡ (returned true, q))) ⊎ ((q.n < want) × Waited es want q out)

-- An event more before the rest of a wait.
Waited-cons :
    {e : Event} {es : List Event} {want : ℕ} {q later_q : Ring} {out rest_out : Outcome Bool × Ring}
    → ((b : List Event) → passed (e ∷ b) q ≡ passed b later_q)
    → ((b : List Event) → InVain want b later_q → InVain want (e ∷ b) q)
    → out ≡ rest_out
    → Waited es want later_q rest_out
    → Waited (e ∷ es) want q out
Waited-cons {e} {want = want} same vain same_out w = record {
  answer = w.answer;
  before = e ∷ w.before;
  last = w.last;
  rest = w.rest;
  split = ap (◌∷◌ e) w.split;
  in_vain = vain w.before w.in_vain;
  released = subst (λ p. Releases want p w.last w.answer) (sym (same w.before)) w.released;
  returns =
      same_out
      ∙ w.returns
      ∙ ap (λ p. (returned w.answer, passed (w.last ∷ []) p)) (sym (same w.before));
}

quiet : {q : Ring} → q.wake ≡ false → record q { wake = false } ≡ q
quiet {q} e = ap (λ b. record q { wake = b }) (sym e)

wait_loop-Waited :
    (es : List Event) (want : ℕ) (q : Ring) → Expires es → Waited es want q (wait_loop es want q)
unfolding wait_loop
wait_loop-Waited [] want q f = absurd f
wait_loop-Waited (written xs ∷ es) want q f =
    Waited-cons (λ b. refl) (λ b v. v) refl (wait_loop-Waited es want (write q xs) f)
wait_loop-Waited (flushed ∷ es) want q f =
    Waited-cons (λ b. refl) (λ b v. v) refl (wait_loop-Waited es want (reset q) f)
wait_loop-Waited (woken ∷ es) want q f = elim (Bool-cases q.wake) [
  | inr silent ↦
      Waited-cons (λ b. ap (passed b) (quiet silent))
        (λ b v. (inl silent, subst (InVain want b) (sym (quiet silent)) v)) (if_false _ _ silent)
        (wait_loop-Waited es want q f)
  | inl signal ↦ elim (Bool-cases (leb want q.n)) [
    | inl enough ↦ record {
      answer = true;
      before = [];
      last = woken;
      rest = es;
      split = refl;
      in_vain = tt;
      released = (signal, ground arith, refl);
      returns = if_true _ _ signal ∙ if_true _ _ enough;
    }
    | inr short ↦
        Waited-cons (λ b. refl) (λ b v. (inr (ground arith), v))
          (if_true _ _ signal ∙ if_false _ _ short)
          (wait_loop-Waited es want (record q { wake = false }) f)
  ]
]
wait_loop-Waited (expired ∷ es) want q f = record {
  answer = leb want q.n;
  before = [];
  last = expired;
  rest = es;
  split = refl;
  in_vain = tt;
  released = refl;
  returns = refl;
}

-- `WaitFor` returns at once if the ring holds as much as is asked for. Otherwise it blocks, whoever
-- writes to the ring or empties it, until a signal is received while enough is held, or the deadline
-- fires, and no longer; it returns whether enough is held then. It takes no sample: the ring is what
-- the others made of it, with the signals taken.
pub wait_for_lem :
    (es : List Event) (want : ℕ) (q : Ring) → Expires es → Waits es want q (wait_for es want q)
unfolding wait_for
wait_for_lem es want q f = elim (Bool-cases (leb want q.n)) [
  | inl enough ↦ inl (ground arith, if_true _ _ enough)
  | inr short ↦ inr (
    ground arith,
    subst (Waited es want q) (sym (if_false _ _ short)) (wait_loop-Waited es want q f),
  )
]

-- What it returns, in either case.
pub wait-answer :
    {es : List Event} {want : ℕ} {q : Ring} {out : Outcome Bool × Ring}
    → Waits es want q out
    → (b : Bool) × (out.0 ≡ returned b)
wait-answer (inl (enough, e)) = (true, ap (λ (o : Outcome Bool × Ring). o.0) e)
wait-answer (inr (short, w)) = (w.answer, ap (λ (o : Outcome Bool × Ring). o.0) w.returns)

no_signal-IsValid : {q : Ring} → IsValid q → IsValid (record q { wake = false })
no_signal-IsValid v = ground arith

wait_loop-IsValid :
    (es : List Event) (want : ℕ) {q : Ring} → IsValid q → IsValid (wait_loop es want q).1
unfolding wait_loop
wait_loop-IsValid [] want v = v
wait_loop-IsValid (written xs ∷ es) want v = wait_loop-IsValid es want (write-IsValid xs v).0
wait_loop-IsValid (flushed ∷ es) want v = wait_loop-IsValid es want (reset-IsValid v)
wait_loop-IsValid (woken ∷ es) want {q} v = ground (
  arith,
  wait_loop-IsValid es want v,
  wait_loop-IsValid es want (no_signal-IsValid v),
  no_signal-IsValid v,
)
wait_loop-IsValid (expired ∷ es) want v = v

pub wait_for-IsValid :
    (es : List Event) (want : ℕ) {q : Ring} → IsValid q → IsValid (wait_for es want q).1
unfolding wait_for
wait_for-IsValid es want {q} v = ground (arith, wait_loop-IsValid es want v)
