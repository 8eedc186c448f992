-- ===== src/Alac/Golomb/Total.antt =====
-- The loop of `dynDecomp` ends, and a block that it decodes has as many residuals as samples.
use sonospoof.Base.{
  ℕ, zero, suc, ◌+◌, ◌-◌, ◌*◌, ◌/◌, ◌≤◌, ◌^◌, ◌≡◌, refl, sym, inl, inr, arith, ltb, leb, Bool-cases,
  if_true, if_false, List, [], length, length-append, replicate, length-replicate, add32, ◌&&◌,
  ltb→le, ltb→lt, bit_and, shl32, sub32, subst,
}
use sonospoof.Alac.Result.{Result, ok, err, panic, ◌>>=◌}
use sonospoof.Alac.Bits.{BitBuffer, position, advance}
use sonospoof.Alac.Golomb.{
  AgParams, Decomp, one_sample, zero_run, decomp_loop, dyn_decomp, dyn_get, dyn_get32bit, lead,
}

-- No read moves backwards.
dyn_get32bit_forward :
    (buf : List ℕ) (pos m k maxbits : ℕ) → pos ≤ (dyn_get32bit buf pos m k maxbits).1
unfolding dyn_get32bit
dyn_get32bit_forward buf pos m k maxbits = ground arith

dyn_get_forward : (buf : List ℕ) (pos m k : ℕ) → pos ≤ (dyn_get buf pos m k).1
unfolding dyn_get
dyn_get_forward buf pos m k = ground arith

module _ (num_samples : ℕ) where
  -- What a part of the loop makes of a state: it fails, or the block has grown within its bounds
  -- and the reader has not moved back. It never panics.
  abbrev Grows : ℕ → Decomp → Result Decomp → Type 0
  Grows least s (ok s') = (least ≤ length s'.pc) × (length s'.pc ≤ num_samples) × (s.pos ≤ s'.pos)
  Grows least s (err e) = Unit
  Grows least s panic = ⊥

module _ (p : AgParams) (buf : List ℕ) (num_samples max_size : ℕ) where
  -- A round adds one residual.
  one_sample_lem :
      (s : Decomp)
      → (length (one_sample p buf num_samples max_size s).pc ≡ length s.pc + 1)
        × (s.pos ≤ (one_sample p buf num_samples max_size s).pos)
  unfolding one_sample
  one_sample_lem s = (length-append s.pc _, dyn_get32bit_forward buf s.pos _ _ max_size)

  -- A run of zeros stays within the block.
  zero_run-Grows :
      (s : Decomp)
      → length s.pc ≤ num_samples
      → Grows num_samples (length s.pc) s (zero_run p buf num_samples max_size s)
  unfolding zero_run
  zero_run-Grows s h =
      let k : ℕ = add32 (sub32 (lead s.mean) 24) (add32 s.mean 16 / 2 ^ 6) in
      let mz : ℕ = bit_and (sub32 (shl32 1 k) 1) p.wb in
      let n : ℕ = (dyn_get buf s.pos mz k).0 in
      elim (Bool-cases (ltb (shl32 s.mean 2) 512 && ltb (length s.pc) num_samples)) [
        | inr no_run ↦
            subst (Grows num_samples (length s.pc) s) (sym (if_false _ _ no_run))
              (omega arith, h, omega arith)
        | inl run ↦
            subst (Grows num_samples (length s.pc) s) (sym (if_true _ _ run))
              (elim (Bool-cases (ltb num_samples (length s.pc + n))) [
                | inl over ↦ subst (Grows num_samples (length s.pc) s) (sym (if_true _ _ over)) tt
                | inr fits ↦ subst (Grows num_samples (length s.pc) s) (sym (if_false _ _ fits)) (
                  omega (arith, length-append s.pc (replicate n 0)),
                  omega (
                    arith,
                    ltb→le num_samples (length s.pc + n) fits,
                    length-append s.pc (replicate n 0),
                    length-replicate {A = ℕ} n 0,
                  ),
                  dyn_get_forward buf s.pos mz k,
                )
              ])
      ]

  bind-Grows :
      (least more : ℕ) (s : Decomp) (m : Result Decomp) (f : Decomp → Result Decomp)
      → Grows num_samples least s m
      → ((s' : Decomp)
          → least ≤ length s'.pc
          → length s'.pc ≤ num_samples
          → s.pos ≤ s'.pos
          → Grows num_samples more s (f s'))
      → Grows num_samples more s (m >>= f)
  bind-Grows least more s (ok s') f g h = h s' g.0 g.1 g.2
  bind-Grows least more s (err e) f g h = tt
  bind-Grows least more s panic f g h = absurd g

  from-Grows :
      (least : ℕ) (s s' : Decomp) (m : Result Decomp)
      → s.pos ≤ s'.pos
      → Grows num_samples least s' m
      → Grows num_samples least s m
  from-Grows least s s' (ok t) h g = (g.0, g.1, omega arith)
  from-Grows least s s' (err e) h g = tt
  from-Grows least s s' panic h g = g

  decomp_loop-Grows :
      (fuel : ℕ) (s : Decomp)
      → length s.pc ≤ num_samples
      → num_samples ≤ length s.pc + fuel
      → Grows num_samples num_samples s (decomp_loop p buf num_samples max_size fuel s)
  unfolding decomp_loop
  decomp_loop-Grows zero s h k = (omega arith, h, omega arith)
  decomp_loop-Grows (suc fuel) s h k =
      let t : Decomp = one_sample p buf num_samples max_size s in
      let (len, fwd) = one_sample_lem s in
      elim (Bool-cases (ltb (length s.pc) num_samples)) [
        | inr full ↦
            subst (Grows num_samples num_samples s) (sym (if_false _ _ full))
              (ltb→le (length s.pc) num_samples full, h, omega arith)
        | inl room ↦
            subst (Grows num_samples num_samples s) (sym (if_true _ _ room))
              (elim (Bool-cases (leb (length buf * 8) s.pos)) [
                | inl end ↦ subst (Grows num_samples num_samples s) (sym (if_true _ _ end)) tt
                | inr more ↦ subst (Grows num_samples num_samples s) (sym (if_false _ _ more)) (
                    bind-Grows (length t.pc) num_samples s (zero_run p buf num_samples max_size t) _
                      (from-Grows (length t.pc) s t (zero_run p buf num_samples max_size t) fwd
                        (zero_run-Grows t (omega (arith, ltb→lt (length s.pc) num_samples room))))
                      (λ s' lo hi on.
                        from-Grows num_samples s s' (decomp_loop p buf num_samples max_size fuel s')
                          on (decomp_loop-Grows fuel s' hi (omega arith))))
              ])
      ]

-- As many residuals as samples were asked for, with the reader behind them, or an error.
abbrev pub Decodes : BitBuffer → ℕ → Result (List ℕ × BitBuffer) → Type 0
Decodes bits num_samples (ok r) =
    (length r.0 ≡ num_samples) × (r.1.buf ≡ bits.buf) × (bits.pos ≤ r.1.pos)
Decodes bits num_samples (err e) = Unit
Decodes bits num_samples panic = ⊥

-- Whatever the bits and the parameters are, a block decodes to as many residuals as samples were
-- asked for, with the reader in the same buffer and not before its start, or to an error: the loop
-- never ends early, and no write leaves the block.
pub dyn_decomp-Decodes :
    (p : AgParams) (bits : BitBuffer) (num_samples max_size : ℕ)
    → Decodes bits num_samples (dyn_decomp p bits num_samples max_size)
unfolding dyn_decomp position advance
dyn_decomp-Decodes p bits num_samples max_size =
    finish (decomp_loop p bits.buf num_samples max_size num_samples _)
      (decomp_loop-Grows p bits.buf num_samples max_size num_samples _ (omega arith) (omega arith))
  where
    finish :
        (m : Result Decomp)
        → Grows num_samples num_samples
            (record { pos = bits.pos; mean = p.mb0; zmode = 0; pc = [] })
            m
        → Decodes bits num_samples
            (m >>= λ s. ok (s.pc, record bits { pos = bits.pos + (s.pos - bits.pos) }))
    finish (ok s) g = (omega arith, refl, omega arith)
    finish (err e) g = tt
    finish panic g = g
