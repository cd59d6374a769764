-- ===== src/Ber/Oid/Base128.antt =====
-- Base 128 arcs of `OIDType`: what the encoder of an arc writes is what the decoder reads.
use arduino_snmp_manager.Common.{
  ℕ, zero, suc, ◌+◌, ◌/◌, ◌%◌, ◌^◌, ◌≤◌, ◌<◌, ◌≡◌, inl, inr, some, List, [], ◌∷◌, ◌++◌, arith,
  length, ltb, ltb→lt, not_ltb→le, Bool-cases,
}
use arduino_snmp_manager.Ber.Oid.{groups, base128, read_base128}

read_one :
    (a : ℕ) (rest : List ℕ) → a < 2 ^ 14 → read_base128 (base128 a ++ rest) 0 0 ≡ some (a, rest)
unfolding read_base128 base128
read_one a rest h = ground arith

read_three :
    (a : ℕ) (rest : List ℕ)
    → 2 ^ 14 ≤ a
    → a < 2 ^ 21
    → read_base128 (base128 a ++ rest) 0 0 ≡ some (a, rest)
unfolding read_base128 base128
read_three a rest l h = ground arith

read_four :
    (a : ℕ) (rest : List ℕ)
    → 2 ^ 21 ≤ a
    → a < 2 ^ 28
    → read_base128 (base128 a ++ rest) 0 0 ≡ some (a, rest)
unfolding read_base128 base128
read_four a rest l h = ground arith

read_five :
    (a : ℕ) (rest : List ℕ)
    → 2 ^ 28 ≤ a
    → a < 2 ^ 35
    → read_base128 (base128 a ++ rest) 0 0 ≡ some (a, rest)
unfolding read_base128 base128
read_five a rest l h = ground arith

-- The encoding of an arc is read back, and the rest is left.
pub read_base128-base128 :
    (a : ℕ) (rest : List ℕ) → a < 2 ^ 35 → read_base128 (base128 a ++ rest) 0 0 ≡ some (a, rest)
read_base128-base128 a rest h = elim (Bool-cases (ltb a (2 ^ 14))) [
  | inl s ↦ read_one a rest (ltb→lt _ _ s)
  | inr l ↦ elim (Bool-cases (ltb a (2 ^ 21))) [
    | inl s ↦ read_three a rest (not_ltb→le _ _ l) (ltb→lt _ _ s)
    | inr l ↦ elim (Bool-cases (ltb a (2 ^ 28))) [
      | inl s ↦ read_four a rest (not_ltb→le _ _ l) (ltb→lt _ _ s)
      | inr l ↦ read_five a rest (not_ltb→le _ _ l) h
    ]
  ]
]

length-groups :
    (rounds a : ℕ) (taken : List ℕ)
    → (length taken ≤ length (groups rounds a taken))
      × (length (groups rounds a taken) ≤ length taken + rounds)
      × (0 < rounds → length taken < length (groups rounds a taken))
unfolding groups
length-groups zero a taken = omega arith
length-groups (suc rounds) a taken = ground (
  arith,
  length-groups rounds (a / 128) ((a % 128 + (elim taken [ [] ↦ 0 | _ ∷ _ ↦ 0x80 ])) ∷ taken),
)

pub length-base128 : (a : ℕ) → (0 < length (base128 a)) × (length (base128 a) ≤ 5)
unfolding base128
length-base128 a = let l = length-groups 5 a [] in (l.2 (omega arith), l.1)
