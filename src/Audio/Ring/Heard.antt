-- ===== src/Audio/Ring/Heard.antt =====
-- What a blocked `Read` is due, told by a queue of samples and the events of its wait.
use sonospoof.Base.{
  ℕ, ◌+◌, ◌-◌, ◌≤◌, ◌≡◌, refl, ap, ap₂, sym, ◌∙◌, ◌<◌, Bool, true, false, leb, if◌then◌else◌, take,
  take_all, drop_all, List, [], ◌∷◌, ◌++◌, arith, length, length-append, append_assoc, if_true,
  if_false, take-append-drop,
}
use sonospoof.Audio.Ring.{Ring, take_out, Event, written, flushed, woken, expired}
use sonospoof.Audio.Ring.Refine.{contents}
use sonospoof.Audio.Ring.Drain.{take_out-Took}

-- The deadline fires, and nobody empties the ring before it does.
abbrev pub Fires : List Event → Type 0
Fires [] = ⊥
Fires (written xs ∷ es) = Fires es
Fires (flushed ∷ es) = ⊥
Fires (woken ∷ es) = Fires es
Fires (expired ∷ es) = Unit {0}

-- The samples that are written before the deadline.
abbrev pub arrivals : List Event → List ℕ
arrivals [] = []
arrivals (written xs ∷ es) = xs ++ arrivals es
arrivals (flushed ∷ es) = arrivals es
arrivals (woken ∷ es) = arrivals es
arrivals (expired ∷ es) = []

-- A wait for `k` samples on a queue that holds `unseen`, with or without a signal: what is heard of
-- the queue and of what is written, and what is written when the wait is over. A signal tells of all
-- that was written before it; what no signal tells of before the deadline is not heard.
abbrev pub heard : ℕ → Bool → List ℕ → List Event → List ℕ × List ℕ
heard k wake unseen [] = ([], [])
heard k wake unseen (written xs ∷ es) = heard k true (unseen ++ xs) es
heard k wake unseen (flushed ∷ es) = ([], [])
heard k false unseen (woken ∷ es) = heard k false unseen es
heard k true unseen (woken ∷ es) =
    let further = heard (k - length unseen) false [] es in
    if leb k (length unseen) then (take k unseen, arrivals es) else (unseen ++ further.0, further.1)
heard k wake unseen (expired ∷ es) = ([], [])

-- A read of `size` samples of a queue: what it holds, as far as that goes, and what is heard later.
abbrev pub due : ℕ → Bool → List ℕ → List Event → List ℕ × List ℕ
due size wake held es =
    let further = heard (size - length held) wake [] es in
    if leb size (length held) then (take size held, arrivals es) else (held ++ further.0, further.1)

-- What a read in progress has, and is to hear.
abbrev pub on_its_way : ℕ → List ℕ → Ring → List Event → List ℕ × List ℕ
on_its_way size got q es =
    let further = heard (size - length got) q.wake (contents q) es in (got ++ further.0, further.1)

pub heard_silent :
    (k : ℕ) (w : Bool) (unseen : List ℕ) (es : List Event)
    → w ≡ false
    → heard k w unseen es ≡ heard k w unseen (woken ∷ es)
heard_silent k w unseen es e = rw e refl

pub heard_short :
    (k : ℕ) (w : Bool) (unseen : List ℕ) (es : List Event)
    → w ≡ true
    → length unseen < k
    → let further = heard (k - length unseen) false [] es in
      (unseen ++ further.0, further.1) ≡ heard k w unseen (woken ∷ es)
heard_short k w unseen es e h = rw e (sym (if_false {b = leb k (length unseen)} _ _ (ground arith)))

pub heard_full :
    (k : ℕ) (w : Bool) (unseen : List ℕ) (es : List Event)
    → w ≡ true
    → k ≤ length unseen
    → (take k unseen, arrivals es) ≡ heard k w unseen (woken ∷ es)
heard_full k w unseen es e h = rw e (sym (if_true {b = leb k (length unseen)} _ _ (ground arith)))

-- What `take` moves is in order, whatever the slice.
pub take_out-order : (k : ℕ) (q : Ring) → (take_out k q).0 ++ contents (take_out k q).1 ≡ contents q
take_out-order k q =
    let t = take_out-Took k q in ap₂ ◌++◌ t.moved t.left ∙ take-append-drop k (contents q)

pub order_after :
    (got : List ℕ) (q : Ring) (k : ℕ) (es : List Event)
    → (got ++ (take_out k q).0) ++ (contents (take_out k q).1 ++ arrivals es)
      ≡ got ++ (contents q ++ arrivals es)
order_after got q k es =
    let more : List ℕ = (take_out k q).0 in
    let held : List ℕ = contents (take_out k q).1 in
    append_assoc got more (held ++ arrivals es)
    ∙ ap (◌++◌ got) (
        sym (append_assoc more held (arrivals es))
        ∙ ap (λ c. c ++ arrivals es) (take_out-order k q))

-- A take that fills no slice leaves nothing, and the read goes on with nothing unseen.
pub on_its_way-short :
    (size k : ℕ) (got : List ℕ) (p : Ring) (es : List Event)
    → length got + k ≡ size
    → length (contents p) < k
    → let further = heard (k - length (contents p)) p.wake [] es in
      on_its_way size (got ++ (take_out k p).0) (take_out k p).1 es
      ≡ (got ++ (contents p ++ further.0), further.1)
on_its_way-short size k got p es room few =
    let t = take_out-Took k p in
    let more : List ℕ = (take_out k p).0 in
    let q' : Ring = (take_out k p).1 in
    let whole : more ≡ contents p = t.moved ∙ take_all k (contents p) (omega arith) in
    let empty : contents q' ≡ [] = t.left ∙ drop_all k (contents p) (omega arith) in
    let missing : size - length (got ++ more) ≡ k - length (contents p) =
      omega (arith, length-append got more, ap length whole) in
    let further : List ℕ × List ℕ = heard (k - length (contents p)) p.wake [] es in
    let same : heard (size - length (got ++ more)) q'.wake (contents q') es ≡ further =
      ap (λ a. heard a q'.wake (contents q') es) missing
      ∙ ap (λ w. heard (k - length (contents p)) w (contents q') es) t.same_wake
      ∙ ap (λ c. heard (k - length (contents p)) p.wake c es) empty in
    ap (λ (h : List ℕ × List ℕ). ((got ++ more) ++ h.0, h.1)) same
    ∙ ap (λ m. ((got ++ m) ++ further.0, further.1)) whole
    ∙ ap (λ x. (x, further.1)) (append_assoc got (contents p) further.0)
