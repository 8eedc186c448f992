-- ===== src/Raop/Reorder/Skip.antt =====
-- `skipToNextPending`: which packet it goes on with.
use sonospoof.Base.{
  ℕ, ◌+◌, ◌≤◌, ◌<◌, ◌^◌, ◌≡◌, refl, ap, ◌∙◌, List, [], ◌∷◌, Option, none, some, arith, length, u64,
  sub16, ◌⊎◌, inl, inr, Bool-cases,
}
use sonospoof.Raop.Reorder.{Resequencer, consider, closest, skip_to_next_pending, ahead}
use sonospoof.Raop.Reorder.Pending.{
  lookup, lookup-cons_self, lookup-cons_some, AllHeld, AllHeld-map,
}
use sonospoof.Raop.Reorder.Window.{sub16_between}
use sonospoof.Raop.Reorder.Inv.{rest, Waiting, Holds}

consider_first : (next k : ℕ) → sub16 k next < 2 ^ 15 → consider next k none ≡ some k
unfolding consider
consider_first next k h = ground arith

-- Of two candidates the nearer one is kept.
consider_nearer :
    (next k b : ℕ)
    → k < 2 ^ 16
    → b < 2 ^ 16
    → next < 2 ^ 16
    → sub16 k next < 2 ^ 15
    → sub16 b next < 2 ^ 15
    → ((consider next k (some b) ≡ some k) × (sub16 k next ≤ sub16 b next))
      ⊎ ((consider next k (some b) ≡ some b) × (sub16 b next ≤ sub16 k next))
unfolding consider
consider_nearer next k b hk hb hn dk db = elim (Bool-cases (ahead k b)) [
  | inl e ↦ inr (ground arith, ground arith)
  | inr e ↦ inl (ground arith, ground arith)
]

module _ {A : Type 0} (Sent : ℕ → A → Type 0) (next : ℕ) (next_fits : next < 2 ^ 16) where
  -- `best` is the candidate `b` or a held packet, and no packet is nearer to `next`.
  record Nearest (b : ℕ) (m : List (ℕ × A)) (result : Option ℕ) : Type 0 where
    best : ℕ
    found : result ≡ some best
    fits : best < 2 ^ 16
    near : sub16 best next ≤ sub16 b next
    minimal : AllHeld (λ k v. sub16 best next ≤ sub16 k next) m
    held : (best ≡ b) ⊎ ((v : A) × (lookup best m ≡ some v))

  closest-Nearest :
      (m : List (ℕ × A)) (b : ℕ)
      → b < 2 ^ 16
      → sub16 b next < 2 ^ 15
      → AllHeld (Waiting Sent next) m
      → Nearest b m (closest next m (some b))
  unfolding closest
  closest-Nearest [] b hb db h = record {
    best = b;
    found = refl;
    fits = hb;
    near = omega arith;
    minimal = tt;
    held = inl refl;
  }
  closest-Nearest ((k, v) ∷ m) b hb db h =
      elim (consider_nearer next k b h.0.0 hb next_fits h.0.1 db) [
        | inl (e, le) ↦
            let r = closest-Nearest m k h.0.0 h.0.1 h.1 in
            record {
              best = r.best;
              found = ap (closest next m) e ∙ r.found;
              fits = r.fits;
              near = omega (arith, r.near);
              minimal = (r.near, r.minimal);
              held = inr (elim r.held [
                | inl same ↦ (v, lookup-cons_self k r.best v m same)
                | inr (x, lk) ↦ lookup-cons_some k r.best v m lk
              ]);
            }
        | inr (e, le) ↦
            let r = closest-Nearest m b hb db h.1 in
            record {
              best = r.best;
              found = ap (closest next m) e ∙ r.found;
              fits = r.fits;
              near = r.near;
              minimal = (omega (arith, r.near), r.minimal);
              held = elim r.held [
                | inl same ↦ inl same
                | inr (x, lk) ↦ inr (lookup-cons_some k r.best v m lk)
              ];
            }
      ]

  -- With packets held, one of them is found, and none is nearer.
  closest_found :
      (m : List (ℕ × A))
      → 0 < length m
      → AllHeld (Waiting Sent next) m
      → (best : ℕ) × (v : A) × (closest next m none ≡ some best)
        × (lookup best m ≡ some v)
        × (best < 2 ^ 16)
        × AllHeld (λ k v. sub16 best next ≤ sub16 k next) m
  unfolding closest
  closest_found [] pos h = absurd (omega arith)
  closest_found ((k, v) ∷ m) pos h =
      let r = closest-Nearest m k h.0.0 h.0.1 h.1 in
      let (x, lk) : (x : A) × (lookup r.best ((k, v) ∷ m) ≡ some x) = elim r.held [
        | inl same ↦ (v, lookup-cons_self k r.best v m same)
        | inr (x, lk) ↦ lookup-cons_some k r.best v m lk
      ] in
      (
        r.best,
        x,
        ap (closest next m) (consider_first next k h.0.1) ∙ r.found,
        lk,
        r.fits,
        (r.near, r.minimal),
      )

-- The gap is given up for the nearest held packet: its distance is counted as lost.
pub record Skipped {A : Type 0} (Sent : ℕ → A → Type 0) (q out : Resequencer A) : Type 0 where
  pub best : ℕ
  pub pkt : A
  pub next_at : out.next ≡ best
  pub lost_at : out.lost ≡ u64 (q.lost + sub16 best q.next)
  pub same_pending : out.pending ≡ q.pending
  pub same_rest : rest out ≡ rest q
  pub waits : lookup best q.pending ≡ some pkt
  pub nearest : AllHeld (λ k v. sub16 best q.next ≤ sub16 k q.next) q.pending
  pub holds : Holds Sent out

-- Where a packet is held, the skip goes to the one nearest ahead of the missing position, whatever
-- the order of the map is, over the end of the sequence space too; it counts the positions between
-- as lost, and changes nothing else.
pub skip-Skipped :
    {A : Type 0} (Sent : ℕ → A → Type 0) (q : Resequencer A)
    → Holds Sent q
    → 0 < length q.pending
    → Skipped Sent q (skip_to_next_pending q)
unfolding skip_to_next_pending
skip-Skipped Sent q h pos =
    let (best, pkt, found, lk, fits, least) =
      closest_found Sent q.next h.next_fits q.pending pos h.held in
    rw (found, skip_to_next_pending)
      (record {
        best = best;
        pkt = pkt;
        next_at = refl;
        lost_at = refl;
        same_pending = refl;
        same_rest = refl;
        waits = lk;
        nearest = least;
        holds = record {
          next_fits = fits;
          distinct = h.distinct;
          held =
              AllHeld-map q.pending
                (λ k v w near.
                  (w.0, omega (arith, sub16_between k best q.next w.0 fits h.next_fits near), w.2))
                h.held least;
          lost_fits = omega arith;
        };
      })
