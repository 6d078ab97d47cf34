-- ===== src/Utf8/Decode.antt =====
-- What one round of the loop of `valid_utf8` in secp.cpp accepts: the encoding of a scalar value.
use nettverk.Prelude.{
  ℕ, suc, ◌+◌, ◌-◌, ◌*◌, ◌≤◌, ◌<◌, ◌≡◌, refl, subst, true, some, [], ◌∷◌, ◌++◌, arith, Bytes,
  encode, All, drop,
}
use nettverk.Utf8.{cont, ranged_2, ranged_3, advance}
use nettverk.Utf8.Scalars.{IsScalar}
use nettverk.Utf8.Round.{
  Round, ascii, two, e0, ed, three, f0, f4, four, advance-Round, is_cont-range, ranged_2_lem,
  ranged_3_lem,
}

abbrev pub IsByte : ℕ → Type 0
IsByte b = b < 256

-- The text begins with the encoding of a scalar value, and `rest` follows.
abbrev pub Decodes : Bytes → Bytes → Type 0
Decodes s rest = (c : ℕ) × IsScalar c × (s ≡ encode c ++ rest)

abbrev IsTail : ℕ → Type 0
IsTail b = (0x80 ≤ b) × (b < 0xC0)

decode_1 : (b0 : ℕ) (r : Bytes) → b0 < 0x80 → Decodes (b0 ∷ r) r
unfolding encode
decode_1 b0 r h = (b0, ground arith, ground arith)

decode_2 : (b0 b1 : ℕ) (r : Bytes) → 0xC2 ≤ b0 → b0 ≤ 0xDF → IsTail b1 → Decodes (b0 ∷ b1 ∷ r) r
unfolding encode
decode_2 b0 b1 r lo hi t1 = ((b0 - 0xC0) * 64 + (b1 - 0x80), ground arith, ground arith)

decode_3 :
    (b0 b1 b2 : ℕ) (r : Bytes)
    → 0xE0 ≤ b0
    → b0 ≤ 0xEF
    → IsTail b1
    → (b0 ≡ 0xE0 → 0xA0 ≤ b1)
    → (b0 ≡ 0xED → b1 ≤ 0x9F)
    → IsTail b2
    → Decodes (b0 ∷ b1 ∷ b2 ∷ r) r
unfolding encode
decode_3 b0 b1 b2 r lo hi t1 overlong surrogate t2 =
    ((b0 - 0xE0) * 4096 + (b1 - 0x80) * 64 + (b2 - 0x80), ground arith, ground arith)

decode_4 :
    (b0 b1 b2 b3 : ℕ) (r : Bytes)
    → 0xF0 ≤ b0
    → b0 ≤ 0xF4
    → IsTail b1
    → (b0 ≡ 0xF0 → 0x90 ≤ b1)
    → (b0 ≡ 0xF4 → b1 ≤ 0x8F)
    → IsTail b2
    → IsTail b3
    → Decodes (b0 ∷ b1 ∷ b2 ∷ b3 ∷ r) r
unfolding encode
decode_4 b0 b1 b2 b3 r lo hi t1 overlong above t2 t3 = (
  (b0 - 0xF0) * 262144 + (b1 - 0x80) * 4096 + (b2 - 0x80) * 64 + (b3 - 0x80),
  ground arith,
  ground arith,
)

-- A round that moves on by `k` bytes has read one scalar value from them.
abbrev pub Consumes : ℕ → Bytes → ℕ → Type 0
Consumes b0 s k = (j : ℕ) × (k ≡ suc j) × Decodes (b0 ∷ s) (drop j s)

cont_filled : (b0 : ℕ) (s : Bytes) → cont s 0 ≡ true → (b1 : ℕ) × (r : Bytes) × (s ≡ b1 ∷ r)
unfolding cont
cont_filled b0 [] h = absurd (cc)
cont_filled b0 (b1 ∷ r) h = (b1, r, refl)

round_2 :
    (b0 : ℕ) (s : Bytes) → All IsByte s → 0xC2 ≤ b0 → b0 ≤ 0xDF → cont s 0 ≡ true → Consumes b0 s 2
unfolding cont
round_2 b0 [] bs lo hi h = absurd (cc)
round_2 b0 (b1 ∷ r) bs lo hi h = (1, refl, decode_2 b0 b1 r lo hi (is_cont-range b1 bs.0 h))

round_3 :
    (b0 : ℕ) (s : Bytes)
    → All IsByte s
    → 0xE1 ≤ b0
    → b0 ≤ 0xEF
    → (b0 ≡ 0xED → ⊥)
    → cont s 0 ≡ true
    → cont s 1 ≡ true
    → Consumes b0 s 3
unfolding cont
round_3 b0 [] bs lo hi ne h k = absurd (cc)
round_3 b0 (b1 ∷ []) bs lo hi ne h k = absurd (cc)
round_3 b0 (b1 ∷ b2 ∷ r) bs lo hi ne h k = (
  2,
  refl,
  decode_3 b0 b1 b2 r (omega arith) hi (is_cont-range b1 bs.0 h) (omega arith) (λ e. absurd (ne e))
      (is_cont-range b2 bs.1.0 k),
)

round_4 :
    (b0 : ℕ) (s : Bytes)
    → All IsByte s
    → 0xF1 ≤ b0
    → b0 ≤ 0xF3
    → cont s 0 ≡ true
    → cont s 1 ≡ true
    → cont s 2 ≡ true
    → Consumes b0 s 4
unfolding cont
round_4 b0 [] bs lo hi h k l = absurd (cc)
round_4 b0 (b1 ∷ []) bs lo hi h k l = absurd (cc)
round_4 b0 (b1 ∷ b2 ∷ []) bs lo hi h k l = absurd (cc)
round_4 b0 (b1 ∷ b2 ∷ b3 ∷ r) bs lo hi h k l = (
  3,
  refl,
  decode_4 b0 b1 b2 b3 r (omega arith) (omega arith) (is_cont-range b1 bs.0 h) (omega arith)
      (omega arith) (is_cont-range b2 bs.1.0 k) (is_cont-range b3 bs.1.1.0 l),
)

-- The branches behind an explicit length test.
round_ranged_3 :
    (b0 : ℕ) (s : Bytes) (lo hi k : ℕ)
    → All IsByte s
    → 0xE0 ≤ b0
    → b0 ≤ 0xEF
    → 0x80 ≤ lo
    → hi < 0xC0
    → (b0 ≡ 0xE0 → 0xA0 ≤ lo)
    → (b0 ≡ 0xED → hi ≤ 0x9F)
    → ranged_2 s lo hi ≡ some k
    → Consumes b0 s k
round_ranged_3 b0 s lo hi k bs l h p q a z e =
    let (size, b1, b2, r, split, low, high, tail) = ranged_2_lem s lo hi k e in
    let bytes : All IsByte (b1 ∷ b2 ∷ r) = subst (All IsByte) split bs in
    rw split (
      2,
      size,
      decode_3 b0 b1 b2 r l h (omega arith) (omega arith) (omega arith)
          (is_cont-range b2 bytes.1.0 tail),
    )

round_ranged_4 :
    (b0 : ℕ) (s : Bytes) (lo hi k : ℕ)
    → All IsByte s
    → 0xF0 ≤ b0
    → b0 ≤ 0xF4
    → 0x80 ≤ lo
    → hi < 0xC0
    → (b0 ≡ 0xF0 → 0x90 ≤ lo)
    → (b0 ≡ 0xF4 → hi ≤ 0x8F)
    → ranged_3 s lo hi ≡ some k
    → Consumes b0 s k
round_ranged_4 b0 s lo hi k bs l h p q a z e =
    let (size, b1, b2, b3, r, split, low, high, tail, last) = ranged_3_lem s lo hi k e in
    let bytes : All IsByte (b1 ∷ b2 ∷ b3 ∷ r) = subst (All IsByte) split bs in
    rw split (
      3,
      size,
      decode_4 b0 b1 b2 b3 r l h (omega arith) (omega arith) (omega arith)
          (is_cont-range b2 bytes.1.0 tail) (is_cont-range b3 bytes.1.1.0 last),
    )

Round-Consumes : (b0 : ℕ) (s : Bytes) (k : ℕ) → All IsByte s → Round b0 s k → Consumes b0 s k
Round-Consumes b0 s k bs (ascii e h) = (0, e, decode_1 b0 s h)
Round-Consumes b0 s k bs (two e lo hi h) = rw e (round_2 b0 s bs lo hi h)
Round-Consumes b0 s k bs (e0 e h) =
    round_ranged_3 b0 s 0xA0 0xBF k bs (omega arith) (omega arith) (omega arith) (omega arith)
      (omega arith) (omega arith) h
Round-Consumes b0 s k bs (ed e h) =
    round_ranged_3 b0 s 0x80 0x9F k bs (omega arith) (omega arith) (omega arith) (omega arith)
      (omega arith) (omega arith) h
Round-Consumes b0 s k bs (three e lo hi ne h i) = rw e (round_3 b0 s bs lo hi ne h i)
Round-Consumes b0 s k bs (f0 e h) =
    round_ranged_4 b0 s 0x90 0xBF k bs (omega arith) (omega arith) (omega arith) (omega arith)
      (omega arith) (omega arith) h
Round-Consumes b0 s k bs (f4 e h) =
    round_ranged_4 b0 s 0x80 0x8F k bs (omega arith) (omega arith) (omega arith) (omega arith)
      (omega arith) (omega arith) h
Round-Consumes b0 s k bs (four e lo hi h i j) = rw e (round_4 b0 s bs lo hi h i j)

pub advance-Consumes :
    (b0 : ℕ) (s : Bytes) (k : ℕ) → All IsByte s → advance b0 s ≡ some k → Consumes b0 s k
advance-Consumes b0 s k bs h = Round-Consumes b0 s k bs (advance-Round b0 s k h)
