-- ===== src/Ber/Oid/Digits.antt =====
-- Decimal arcs of `OIDType`: what `%lu` prints is what `read_arc` reads.
use arduino_snmp_manager.Ber.Oid.{decimal, digits, dot, read_arc, starts_arc}
use arduino_snmp_manager.Common.{
  Bool-cases, IsU32, List, [], ap, append_assoc, arith, false, inl, inr, length, length-append,
  refl, some, suc, true, zero, ℕ, ◌%◌, ◌++◌, ◌+◌, ◌/◌, ◌<◌, ◌==◌, ◌^◌, ◌∙◌, ◌∷◌, ◌≡◌, ◌≤◌,
}
use native.Mathlib.Nat.{pow-suc}

-- Reading printed digits leaves the number as the arc, before what follows.
read_arc-digits :
    (f n : ℕ) (rest : List ℕ)
    → n < 10 ^ suc f
    → IsU32 n
    → read_arc (digits (suc f) n ++ rest) 0 ≡ read_arc rest n
unfolding read_arc digits
read_arc-digits zero n rest h k = ground arith
read_arc-digits (suc f) n rest h k = elim (Bool-cases (n / 10 == 0)) [
  | inl e ↦ rw e (ground arith)
  | inr e ↦
      rw
        (
          e,
          append_assoc (digits (suc f) (n / 10)) ((b'0' + n % 10) ∷ []) rest,
          read_arc-digits f (n / 10) ((b'0' + n % 10) ∷ rest) (omega (arith, pow-suc 10 (suc f)))
              (omega arith),
        )
        (ground arith)
]

starts_arc-digits : (f n : ℕ) (rest : List ℕ) → starts_arc (dot ∷ digits (suc f) n ++ rest) ≡ true
unfolding starts_arc digits
starts_arc-digits zero n rest = ground arith
starts_arc-digits (suc f) n rest = elim (Bool-cases (n / 10 == 0)) [
  | inl e ↦ rw e (ground arith)
  | inr e ↦
      rw (e, append_assoc (digits (suc f) (n / 10)) ((b'0' + n % 10) ∷ []) rest)
        (starts_arc-digits f (n / 10) ((b'0' + n % 10) ∷ rest))
]

length-digits : (f n : ℕ) → (0 < f → 0 < length (digits f n)) × (length (digits f n) ≤ f)
unfolding digits
length-digits zero n = omega arith
length-digits (suc f) n = elim (Bool-cases (n / 10 == 0)) [
  | inl e ↦ rw e (omega arith)
  | inr e ↦
      rw (e, length-append (digits f (n / 10)) ((b'0' + n % 10) ∷ []))
        (omega (arith, length-digits f (n / 10)))
]

-- A text ends here, or goes on with a dot.
abbrev pub Ends : List ℕ → Type 0
Ends [] = Unit
Ends (c ∷ rest) = c ≡ dot

read_arc-Ends : (n : ℕ) (rest : List ℕ) → Ends rest → read_arc rest n ≡ some (n, rest)
unfolding read_arc
read_arc-Ends n [] h = refl
read_arc-Ends n (c ∷ rest) h = ground arith

-- A printed number is read back up to the next dot.
pub read_arc-decimal :
    (n : ℕ) (rest : List ℕ) → IsU32 n → Ends rest → read_arc (decimal n ++ rest) 0 ≡ some (n, rest)
unfolding decimal
read_arc-decimal n rest h k =
    rw (small) (read_arc-digits 9 n rest (omega arith) h ∙ read_arc-Ends n rest k)
  where
    small : n % 2 ^ 32 ≡ n
    small = omega arith

pub starts_arc-decimal : (n : ℕ) (rest : List ℕ) → starts_arc (dot ∷ decimal n ++ rest) ≡ true
unfolding decimal
starts_arc-decimal n rest = starts_arc-digits 9 (n % 2 ^ 32) rest

pub length-decimal : (n : ℕ) → (0 < length (decimal n)) × (length (decimal n) ≤ 10)
unfolding decimal
length-decimal n = let l = length-digits 10 (n % 2 ^ 32) in (l.0 (omega arith), l.1)

digits-last : (f n : ℕ) → n < 10 → digits (suc f) n ≡ (b'0' + n) ∷ []
unfolding digits
digits-last f n h =
    let e : (n / 10 == 0) ≡ true = ground arith in
    let d : n % 10 ≡ n = omega arith in rw (e, d) refl

digits-more : (f n : ℕ) → 10 ≤ n → digits (suc f) n ≡ digits f (n / 10) ++ ((b'0' + n % 10) ∷ [])
unfolding digits
digits-more f n h = let e : (n / 10 == 0) ≡ false = ground arith in rw e refl

-- The digits of a number below 1000, by their number.
pub decimal-one : (n : ℕ) → n < 10 → decimal n ≡ (b'0' + n) ∷ []
unfolding decimal
decimal-one n h = let small : n % 2 ^ 32 ≡ n = omega arith in rw small (digits-last 9 n h)

pub decimal-two : (n : ℕ) → 10 ≤ n → n < 100 → decimal n ≡ (b'0' + n / 10) ∷ (b'0' + n % 10) ∷ []
unfolding decimal
decimal-two n h k =
    let small : n % 2 ^ 32 ≡ n = omega arith in
    rw small (
      digits-more 9 n h
      ∙ ap (λ (t : List ℕ). t ++ ((b'0' + n % 10) ∷ [])) (digits-last 8 (n / 10) (omega arith)))

pub decimal-three :
    (n : ℕ)
    → 100 ≤ n
    → n < 1000
    → decimal n ≡ (b'0' + n / 10 / 10) ∷ (b'0' + n / 10 % 10) ∷ (b'0' + n % 10) ∷ []
unfolding decimal
decimal-three n h k =
    let small : n % 2 ^ 32 ≡ n = omega arith in
    rw small (
      digits-more 9 n (omega arith)
      ∙ ap (λ (t : List ℕ). t ++ ((b'0' + n % 10) ∷ []))
          (digits-more 8 (n / 10) (omega arith)
            ∙ ap (λ (t : List ℕ). t ++ ((b'0' + n / 10 % 10) ∷ []))
                (digits-last 7 (n / 10 / 10) (omega arith))))
