-- ===== src/Alac/Decoder/Loop.antt =====
-- The loop of `Decode` over the elements of a frame: it ends, and what it keeps.
use sonospoof.Base.{
  ℕ, zero, suc, ◌+◌, ◌*◌, ◌≤◌, ◌≡◌, refl, ap, sym, ◌∙◌, List, arith, length, if◌then◌else◌, ltb,
  ◌==◌, Bool-cases, inl, inr, ltb→le, if_true, if_false, subst, false,
}
use sonospoof.Alac.Result.{Result, ok, err, panic, Yields, truncated, bad_element}
use sonospoof.Alac.Bits.{BitBuffer, new_bit_buffer, read_short, read, exhausted}
use sonospoof.Alac.Decoder.{Config, decode_element, decode_loop, decode}
use sonospoof.Alac.Decoder.Shape.{Decoded, decode_element-Yields}

read_tag-Forward : (b : BitBuffer) → ((read 3 b).1.buf ≡ b.buf) × ((read 3 b).1.pos ≡ b.pos + 3)
unfolding read read_short
read_tag-Forward b = (refl, refl)

-- The rest of a round, where the two ways to go on agree.
after_element :
    (m : Result (ℕ × List ℕ × BitBuffer)) (out : List ℕ)
    (f g : ℕ × List ℕ × BitBuffer → Result ℕ × List ℕ)
    → ((x : ℕ × List ℕ × BitBuffer) → m ≡ ok x → exhausted x.2 ≡ false → f x ≡ g x)
    → ◌≡◌ {A = Result ℕ × List ℕ}
        (elim m [
          | ok (n, out', b) ↦ if exhausted b then (err truncated, out') else f (n, out', b)
          | err e ↦ (err e, out)
          | panic ↦ (panic, out)
        ])
        (elim m [
          | ok (n, out', b) ↦ if exhausted b then (err truncated, out') else g (n, out', b)
          | err e ↦ (err e, out)
          | panic ↦ (panic, out)
        ])
after_element (ok (n, out', b)) out f g h = elim (Bool-cases (exhausted b)) [
  | inl end ↦ rw end refl
  | inr more ↦ rw more (h (n, out', b) refl more)
]
after_element (err e) out f g h = refl
after_element panic out f g h = refl

inside_after :
    (cfg : Config) (b : BitBuffer) (out : List ℕ) (x : ℕ × List ℕ × BitBuffer)
    (m : Result (ℕ × List ℕ × BitBuffer))
    → Yields (Decoded cfg b out) m
    → m ≡ ok x
    → Decoded cfg b out x
inside_after cfg b out x m y e = subst (Yields (Decoded cfg b out)) e y

-- More fuel than bits makes no difference: each round reads a tag, and stops behind the end.
pub decode_loop_more :
    (more fuel : ℕ) (cfg : Config) (b : BitBuffer) (out : List ℕ) (channel_index n : ℕ)
    → length b.buf * 8 + 1 ≤ fuel + b.pos
    → b.pos ≤ length b.buf * 8
    → decode_loop (fuel + more) cfg b out channel_index n
      ≡ decode_loop fuel cfg b out channel_index n
unfolding decode_loop
decode_loop_more more zero cfg b out channel_index n h inside = absurd (omega arith)
decode_loop_more more (suc fuel) cfg b out channel_index n h inside =
    let (tag, b₁) = read 3 b in
    let at = read_tag-Forward b in
    let y = decode_element-Yields cfg b₁ out channel_index (tag + 1) in
    ap (λ k. decode_loop k cfg b out channel_index n) {x = suc fuel + more} {y = suc (fuel + more)}
      (omega arith)
    ∙ ap
        (λ (z : Result ℕ × List ℕ).
          if ltb tag 2 then z else if tag == 7 then (ok n, out) else (err bad_element, out))
        (after_element (decode_element cfg b₁ out channel_index (tag + 1)) out
          (λ (n', out', b'). decode_loop (fuel + more) cfg b' out' (channel_index + (tag + 1)) n')
          (λ (n', out', b'). decode_loop fuel cfg b' out' (channel_index + (tag + 1)) n')
          (λ x e running.
            let d = inside_after cfg b₁ out x _ y e in
            let same = ap length d.2.same ∙ ap length at.0 in
            decode_loop_more more fuel cfg x.2 x.1 (channel_index + (tag + 1)) x.0
              (omega (arith, same, at.1, d.2.behind))
              (unfold exhausted in ltb→le (length x.2.buf * 8) x.2.pos running)))

-- A frame's samples fit the configuration, and `out` keeps its size, whatever the outcome is.
abbrev pub Bounded : Config → List ℕ → Result ℕ × List ℕ → Type 0
Bounded cfg out r = (length r.1 ≡ length out) × Yields (λ n. n ≤ cfg.frame_length) r.0

after_element-Bounded :
    (cfg : Config) (b : BitBuffer) (m : Result (ℕ × List ℕ × BitBuffer)) (out : List ℕ)
    (f : ℕ × List ℕ × BitBuffer → Result ℕ × List ℕ)
    → Yields (Decoded cfg b out) m
    → ((x : ℕ × List ℕ × BitBuffer) → Decoded cfg b out x → Bounded cfg x.1 (f x))
    → Bounded cfg out (elim m [
      | ok (n, out', b') ↦ if exhausted b' then (err truncated, out') else f (n, out', b')
      | err e ↦ (err e, out)
      | panic ↦ (panic, out)
    ])
after_element-Bounded cfg b (ok (n, out', b')) out f d h =
    let (same, fits) = h (n, out', b') d in
    elim (Bool-cases (exhausted b')) [
      | inl end ↦ rw end (d.1, tt)
      | inr more ↦ rw more (same ∙ d.1, fits)
    ]
after_element-Bounded cfg b (err e) out f d h = (refl, tt)
after_element-Bounded cfg b panic out f d h = (refl, tt)

decode_loop-Bounded :
    (fuel : ℕ) (cfg : Config) (b : BitBuffer) (out : List ℕ) (channel_index n : ℕ)
    → n ≤ cfg.frame_length
    → Bounded cfg out (decode_loop fuel cfg b out channel_index n)
unfolding decode_loop
decode_loop-Bounded zero cfg b out channel_index n h = (refl, tt)
decode_loop-Bounded (suc fuel) cfg b out channel_index n h =
    let (tag, b₁) = read 3 b in
    elim (Bool-cases (ltb tag 2)) [
      | inl element ↦ subst (Bounded cfg out) (sym (if_true _ _ element)) (
          after_element-Bounded cfg b₁ (decode_element cfg b₁ out channel_index (tag + 1)) out
            (λ (n', out', b'). decode_loop fuel cfg b' out' (channel_index + (tag + 1)) n')
            (decode_element-Yields cfg b₁ out channel_index (tag + 1))
            (λ x d. decode_loop-Bounded fuel cfg x.2 x.1 (channel_index + (tag + 1)) x.0 d.0))
      | inr other ↦
          subst (Bounded cfg out) (sym (if_false _ _ other)) (elim (Bool-cases (tag == 7)) [
            | inl end ↦ rw end (refl, h)
            | inr bad ↦ rw bad (refl, tt)
          ])
    ]

-- Any frame, into any slice: the slice keeps its size, also after an error, and a frame that
-- decodes has at most as many samples per channel as the configuration announces.
pub decode-Bounded :
    (cfg : Config) (frame out : List ℕ)
    → let (result, out') = decode cfg frame out in
      (length out' ≡ length out) × Yields (λ n. n ≤ cfg.frame_length) result
unfolding decode
decode-Bounded cfg frame out = elim (Bool-cases (cfg.bit_depth == 16)) [
  | inl depth ↦
      subst (Bounded cfg out) (sym (if_true _ _ depth)) (
        decode_loop-Bounded (length frame * 8 + 1) cfg (new_bit_buffer frame) out 0 0 (omega arith))
  | inr other ↦ subst (Bounded cfg out) (sym (if_false _ _ other)) (refl, tt)
]

-- The loop over the elements ends: at 16 bits, the fuel that `decode` gives it is enough for any
-- frame, since more rounds give the same result.
pub decode_enough :
    (cfg : Config) (frame out : List ℕ) (more : ℕ)
    → cfg.bit_depth ≡ 16
    → decode_loop (length frame * 8 + 1 + more) cfg (new_bit_buffer frame) out 0 0
      ≡ decode cfg frame out
unfolding decode new_bit_buffer
decode_enough cfg frame out more depth =
    decode_loop_more more (length frame * 8 + 1) cfg (new_bit_buffer frame) out 0 0 (omega arith)
      (omega arith)
    ∙ sym (if_true {b = cfg.bit_depth == 16} _ _ (ground arith))
