-- ===== src/Raop/Rtp/Decrypt.antt =====
-- `decrypt` against what the sender does: whole blocks in CBC from the session's IV, and the rest in
-- the clear.
use sonospoof.Base.{
  ℕ, zero, suc, ◌+◌, ◌*◌, ◌/◌, ◌≤◌, ◌≡◌, refl, ap, ap₂, sym, ◌∙◌, List, [], ◌∷◌, ◌++◌, arith,
  length, take, drop, bit_xor_twice, length-append, length-take, length-drop, drop-drop,
  take-append-drop, ◌==◌, ==_iff, append_assoc, Bool-cases, inl, inr,
}
use sonospoof.Raop.Rtp.{AudioDecoder, xor_bytes, crypt_blocks, decrypt}

module _ (forward : List ℕ → List ℕ) where
  -- CBC: each block is combined with the ciphertext before it, then enciphered.
  abbrev pub encrypt_blocks : ℕ → List ℕ → List ℕ → List ℕ
  encrypt_blocks zero iv bytes = []
  encrypt_blocks (suc blocks) iv bytes =
      let c = forward (xor_bytes (take 16 bytes) iv) in
      let rest = encrypt_blocks blocks c (drop 16 bytes) in c ++ rest

  -- What a sender puts into a packet.
  abbrev pub encrypt : List ℕ → List ℕ → List ℕ
  encrypt iv plain =
      let blocks = length plain / 16 in encrypt_blocks blocks iv plain ++ drop (blocks * 16) plain

take-append_exact : (n : ℕ) (xs ys : List ℕ) → length xs ≡ n → take n (xs ++ ys) ≡ xs
take-append_exact zero [] ys h = refl
take-append_exact zero (x ∷ xs) ys h = absurd (omega arith)
take-append_exact (suc n) [] ys h = absurd (omega arith)
take-append_exact (suc n) (x ∷ xs) ys h = ap (◌∷◌ x) (take-append_exact n xs ys (omega arith))

drop-append_exact : (n : ℕ) (xs ys : List ℕ) → length xs ≡ n → drop n (xs ++ ys) ≡ ys
drop-append_exact zero [] ys h = refl
drop-append_exact zero (x ∷ xs) ys h = absurd (omega arith)
drop-append_exact (suc n) [] ys h = absurd (omega arith)
drop-append_exact (suc n) (x ∷ xs) ys h = drop-append_exact n xs ys (omega arith)

take-nil : (n : ℕ) → take {A = ℕ} n [] ≡ []
take-nil zero = refl
take-nil (suc n) = refl

take-take : (m n : ℕ) (xs : List ℕ) → take (m + n) xs ≡ take m xs ++ take n (drop m xs)
take-take zero n xs = ap (λ k. take k xs) {x = 0 + n} {y = n} (omega arith)
take-take (suc m) n [] =
    ap (λ k. take k []) {x = suc m + n} {y = suc (m + n)} (omega arith) ∙ sym (take-nil n)
take-take (suc m) n (x ∷ xs) =
    ap (λ k. take k (x ∷ xs)) {x = suc m + n} {y = suc (m + n)} (omega arith)
    ∙ ap (◌∷◌ x) (take-take m n xs)

xor_bytes-twice : (xs ys : List ℕ) → length xs ≤ length ys → xor_bytes (xor_bytes xs ys) ys ≡ xs
unfolding xor_bytes
xor_bytes-twice [] ys h = refl
xor_bytes-twice (x ∷ xs) [] h = absurd (omega arith)
xor_bytes-twice (x ∷ xs) (y ∷ ys) h =
    ap₂ ◌∷◌ (bit_xor_twice x y) (xor_bytes-twice xs ys (omega arith))

length-xor_bytes : (xs ys : List ℕ) → length xs ≤ length ys → length (xor_bytes xs ys) ≡ length xs
unfolding xor_bytes
length-xor_bytes [] ys h = refl
length-xor_bytes (x ∷ xs) [] h = absurd (omega arith)
length-xor_bytes (x ∷ xs) (y ∷ ys) h = ap suc (length-xor_bytes xs ys (omega arith))

module _ (forward inverse : List ℕ → List ℕ)
    (sized : (block : List ℕ) → length block ≡ 16 → length (forward block) ≡ 16)
    (undone : (block : List ℕ) → length block ≡ 16 → inverse (forward block) ≡ block) where
  crypt-encrypt_blocks :
      (blocks : ℕ) (iv bytes tail : List ℕ)
      → length iv ≡ 16
      → blocks * 16 ≤ length bytes
      → (crypt_blocks inverse blocks iv (encrypt_blocks forward blocks iv bytes ++ tail)
          ≡ take (blocks * 16) bytes)
        × (drop (blocks * 16) (encrypt_blocks forward blocks iv bytes ++ tail) ≡ tail)
        × (length (encrypt_blocks forward blocks iv bytes) ≡ blocks * 16)
  unfolding crypt_blocks
  crypt-encrypt_blocks zero iv bytes tail hi h = (refl, refl, refl)
  crypt-encrypt_blocks (suc blocks) iv bytes tail hi h =
      let p : List ℕ = take 16 bytes in
      let x : List ℕ = xor_bytes p iv in
      let c : List ℕ = forward x in
      let rest : List ℕ = encrypt_blocks forward blocks c (drop 16 bytes) in
      let lp = length-take 16 bytes (omega arith) in
      let lx = length-xor_bytes p iv (omega arith) ∙ lp in
      let lc = sized x lx in
      let assoc = append_assoc c rest tail in
      let first : take 16 ((c ++ rest) ++ tail) ≡ c =
        ap (take 16) assoc ∙ take-append_exact 16 c (rest ++ tail) lc in
      let others : drop 16 ((c ++ rest) ++ tail) ≡ rest ++ tail =
        ap (drop 16) assoc ∙ drop-append_exact 16 c (rest ++ tail) lc in
      let (ih, dropped, len) =
        crypt-encrypt_blocks blocks c (drop 16 bytes) tail lc
          (omega (arith, length-drop 16 bytes)) in
      let block : xor_bytes (inverse (take 16 ((c ++ rest) ++ tail))) iv ≡ p =
        ap (λ b. xor_bytes (inverse b) iv) first
        ∙ ap (λ b. xor_bytes b iv) (undone x lx)
        ∙ xor_bytes-twice p iv (omega arith) in
      (
        ap₂ ◌++◌ block (ap₂ (crypt_blocks inverse blocks) first others ∙ ih)
            ∙ sym (take-take 16 (blocks * 16) bytes)
            ∙ ap (λ k. take k bytes) {x = 16 + blocks * 16} {y = suc blocks * 16} (omega arith),
        ap (λ k. drop k ((c ++ rest) ++ tail)) {x = suc blocks * 16} {y = 16 + blocks * 16}
              (omega arith)
            ∙ sym (drop-drop (blocks * 16) 16 ((c ++ rest) ++ tail))
            ∙ ap (drop (blocks * 16)) others
            ∙ dropped,
        omega (arith, length-append c rest),
      )

  length-encrypt :
      (iv plain : List ℕ) → length iv ≡ 16 → length (encrypt forward iv plain) ≡ length plain
  length-encrypt iv plain hi =
      let blocks : ℕ = length plain / 16 in
      let (e, d, len) = crypt-encrypt_blocks blocks iv plain [] hi (omega arith) in
      omega (
        arith,
        length-append (encrypt_blocks forward blocks iv plain) (drop (blocks * 16) plain),
        length-drop (blocks * 16) plain,
      )

  -- For a cipher of 16-byte blocks and its inverse, and an IV of 16 bytes, decryption gives back
  -- what the sender encrypted, of any length: the whole blocks, chained from the IV, and the clear
  -- tail.
  pub decrypt-encrypt :
      (a : AudioDecoder) (plain : List ℕ)
      → length a.iv ≡ 16
      → (decrypt inverse a (encrypt forward a.iv plain)).0 ≡ plain
  unfolding decrypt
  decrypt-encrypt a plain hi =
      let sent : List ℕ = encrypt forward a.iv plain in
      let blocks : ℕ = length plain / 16 in
      let same : length sent / 16 ≡ blocks = omega (arith, length-encrypt a.iv plain hi) in
      let (e, d, len) =
        crypt-encrypt_blocks blocks a.iv plain (drop (blocks * 16) plain) hi (omega arith) in
      rw same (elim (Bool-cases (blocks * 16 == 0)) [
        | inl empty ↦
            let z : blocks * 16 ≡ 0 = (==_iff (blocks * 16) 0).0 empty in
            rw empty (sym (ap (λ k. drop k sent) z) ∙ d ∙ ap (λ k. drop k plain) z)
        | inr blocks_too ↦ rw blocks_too (ap₂ ◌++◌ e d ∙ take-append-drop (blocks * 16) plain)
      ])
