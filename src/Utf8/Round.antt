-- ===== src/Utf8/Round.antt =====
-- The branches by which one round of the loop of `valid_utf8` in secp.cpp goes on.
use nettverk.Prelude.{
  ℕ, ◌≤◌, ◌<◌, ◌≡◌, ◌≢◌, inl, inr, refl, Bool-cases, ◌==◌, true, ◌&&◌, some, [], ◌∷◌, arith, Bytes,
  leb,
}
use nettverk.Utf8.{is_cont, cont, ranged_2, ranged_3, advance}
use nettverk.Utf8.Scalars.{is_cont-eq}

abbrev pub IsByte : ℕ → Type 0
IsByte b = b < 256

pub is_cont-range : (b : ℕ) → b < 256 → is_cont b ≡ true → (128 ≤ b) × (b < 192)
is_cont-range b h k = ground (arith, is_cont-eq b h)

-- The reads behind a length test.
pub ranged_2_lem :
    (s : Bytes) (lo hi k : ℕ)
    → ranged_2 s lo hi ≡ some k
    → (k ≡ 3)
      × (b1 : ℕ) × (b2 : ℕ) × (r : Bytes) × (s ≡ b1 ∷ b2 ∷ r)
      × (lo ≤ b1)
      × (b1 ≤ hi)
      × (is_cont b2 ≡ true)
unfolding ranged_2
ranged_2_lem [] lo hi k h = absurd (ground arith)
ranged_2_lem (b1 ∷ []) lo hi k h = absurd (ground arith)
ranged_2_lem (b1 ∷ b2 ∷ r) lo hi k h =
    (ground arith, b1, b2, r, refl, ground arith, ground arith, ground arith)

pub ranged_3_lem :
    (s : Bytes) (lo hi k : ℕ)
    → ranged_3 s lo hi ≡ some k
    → (k ≡ 4)
      × (b1 : ℕ) × (b2 : ℕ) × (b3 : ℕ) × (r : Bytes) × (s ≡ b1 ∷ b2 ∷ b3 ∷ r)
      × (lo ≤ b1)
      × (b1 ≤ hi)
      × (is_cont b2 ≡ true)
      × (is_cont b3 ≡ true)
unfolding ranged_3
ranged_3_lem [] lo hi k h = absurd (ground arith)
ranged_3_lem (b1 ∷ []) lo hi k h = absurd (ground arith)
ranged_3_lem (b1 ∷ b2 ∷ []) lo hi k h = absurd (ground arith)
ranged_3_lem (b1 ∷ b2 ∷ b3 ∷ r) lo hi k h =
    (ground arith, b1, b2, b3, r, refl, ground arith, ground arith, ground arith, ground arith)

-- The branches of a round that goes on.
pub data Round (b0 : ℕ) (s : Bytes) (k : ℕ) : Type 0 where
  ascii : k ≡ 1 → b0 < 0x80 → Round b0 s k
  two : k ≡ 2 → 0xC2 ≤ b0 → b0 ≤ 0xDF → cont s 0 ≡ true → Round b0 s k
  e0 : b0 ≡ 0xE0 → ranged_2 s 0xA0 0xBF ≡ some k → Round b0 s k
  ed : b0 ≡ 0xED → ranged_2 s 0x80 0x9F ≡ some k → Round b0 s k
  three :
      k ≡ 3 → 0xE1 ≤ b0 → b0 ≤ 0xEF → b0 ≢ 0xED → cont s 0 ≡ true → cont s 1 ≡ true → Round b0 s k
  f0 : b0 ≡ 0xF0 → ranged_3 s 0x90 0xBF ≡ some k → Round b0 s k
  f4 : b0 ≡ 0xF4 → ranged_3 s 0x80 0x8F ≡ some k → Round b0 s k
  four :
      k ≡ 4
      → 0xF1 ≤ b0
      → b0 ≤ 0xF3
      → cont s 0 ≡ true
      → cont s 1 ≡ true
      → cont s 2 ≡ true
      → Round b0 s k

pub advance-Round : (b0 : ℕ) (s : Bytes) (k : ℕ) → advance b0 s ≡ some k → Round b0 s k
unfolding advance
advance-Round b0 s k h = elim (Bool-cases (leb b0 0x7F)) [
  | inl e ↦ ascii (ground arith) (ground arith)
  | inr n1 ↦ elim (Bool-cases (leb 0xC2 b0 && leb b0 0xDF)) [
    | inl e ↦ two (ground arith) (ground arith) (ground arith) (ground arith)
    | inr n2 ↦ elim (Bool-cases (b0 == 0xE0)) [
      | inl e ↦ e0 (ground arith) (ground arith)
      | inr n3 ↦ elim (Bool-cases (b0 == 0xED)) [
        | inl e ↦ ed (ground arith) (ground arith)
        | inr n4 ↦ elim (Bool-cases (leb 0xE1 b0 && leb b0 0xEF)) [
          | inl e ↦
              three (ground arith) (ground arith) (ground arith) (ground arith) (ground arith)
                (ground arith)
          | inr n5 ↦ elim (Bool-cases (b0 == 0xF0)) [
            | inl e ↦ f0 (ground arith) (ground arith)
            | inr n6 ↦ elim (Bool-cases (b0 == 0xF4)) [
              | inl e ↦ f4 (ground arith) (ground arith)
              | inr n7 ↦
                  four (ground arith) (ground arith) (ground arith) (ground arith) (ground arith)
                    (ground arith)
            ]
          ]
        ]
      ]
    ]
  ]
]
