-- ===== src/Common/Lists.antt =====
-- Lists measured and indexed by native numbers, under the library's names.
use Prim.Native.Nat.{ℕ, zero, suc, ◌+◌, ◌≤◌, ◌<◌}
use mathlib.Core.Path.{◌≡◌, refl, ap, sym, subst}
use mathlib.Core.Logic.{◌⊎◌, inl, inr, ◌≢◌}
use mathlib.Core.Option.{some-injective}
use mathlib.Core.Bool.{Bool, true, false, ◌&&◌}
use mathlib.Core.List.{List, [], ◌∷◌, ◌++◌}
use mathlib.Core.Option.{Option, none, some}
use native.Mathlib.Omega.{arith}
use arduino_snmp_manager.Common.Tests.{◌==◌}

module _ {ℓ} {A : Type ℓ} where
  abbrev pub length : List A → ℕ
  length [] = 0
  length (x ∷ xs) = suc (length xs)

  abbrev pub take : ℕ → List A → List A
  take zero xs = []
  take (suc n) [] = []
  take (suc n) (x ∷ xs) = x ∷ take n xs

  abbrev pub drop : ℕ → List A → List A
  drop zero xs = xs
  drop (suc n) [] = []
  drop (suc n) (x ∷ xs) = drop n xs

  -- A write out of bounds changes nothing.
  abbrev pub set : List A → ℕ → A → List A
  set [] i v = []
  set (x ∷ xs) zero v = v ∷ xs
  set (x ∷ xs) (suc i) v = x ∷ set xs i v

  abbrev pub get_elem? : List A → ℕ → Option A
  get_elem? [] i = none
  get_elem? (x ∷ xs) zero = some x
  get_elem? (x ∷ xs) (suc i) = get_elem? xs i

  abbrev pub replicate : ℕ → A → List A
  replicate zero a = []
  replicate (suc n) a = a ∷ replicate n a

  abbrev pub All {κ} : (A → Type κ) → List A → Type κ
  All P [] = Unit {κ}
  All P (x ∷ xs) = P x × All P xs

module _ {ℓ} {A : Type ℓ} where
  pub length-append : (xs ys : List A) → length (xs ++ ys) ≡ length xs + length ys
  length-append [] ys = omega arith
  length-append (x ∷ xs) ys = omega (arith, length-append xs ys)

  pub take-append : (xs ys : List A) → take (length xs) (xs ++ ys) ≡ xs
  take-append [] ys = refl
  take-append (x ∷ xs) ys = ap (λ (t : List A). x ∷ t) (take-append xs ys)

  pub drop-append : (xs ys : List A) → drop (length xs) (xs ++ ys) ≡ ys
  drop-append [] ys = refl
  drop-append (x ∷ xs) ys = drop-append xs ys

  pub take-append_at : (n : ℕ) (xs ys : List A) → n ≡ length xs → take n (xs ++ ys) ≡ xs
  take-append_at n [] ys h = rw h refl
  take-append_at zero (x ∷ xs) ys h = absurd (omega arith)
  take-append_at (suc n) (x ∷ xs) ys h =
      ap (λ (t : List A). x ∷ t) (take-append_at n xs ys (omega arith))

  pub drop-append_at : (n : ℕ) (xs ys : List A) → n ≡ length xs → drop n (xs ++ ys) ≡ ys
  drop-append_at n [] ys h = rw h refl
  drop-append_at zero (x ∷ xs) ys h = absurd (omega arith)
  drop-append_at (suc n) (x ∷ xs) ys h = drop-append_at n xs ys (omega arith)

  pub length-take : (n : ℕ) (xs : List A) → n ≤ length xs → length (take n xs) ≡ n
  length-take zero xs h = refl
  length-take (suc n) [] h = absurd (omega arith)
  length-take (suc n) (x ∷ xs) h = omega (arith, length-take n xs (omega arith))

  pub length-drop : (n : ℕ) (xs : List A) → n ≤ length xs → length (drop n xs) + n ≡ length xs
  length-drop zero xs h = omega arith
  length-drop (suc n) [] h = absurd (omega arith)
  length-drop (suc n) (x ∷ xs) h = omega (arith, length-drop n xs (omega arith))

  pub All-append {κ} : (P : A → Type κ) (xs ys : List A) → All P xs → All P ys → All P (xs ++ ys)
  All-append P [] ys h k = k
  All-append P (x ∷ xs) ys h k = (h.0, All-append P xs ys h.1 k)

module _ {ℓ} {A : Type ℓ} where
  pub get_elem?-append_old :
      (xs : List A) (i : ℕ) (y : A) → i < length xs → get_elem? (xs ++ (y ∷ [])) i ≡ get_elem? xs i
  get_elem?-append_old [] i y h = absurd (omega arith)
  get_elem?-append_old (x ∷ xs) zero y h = refl
  get_elem?-append_old (x ∷ xs) (suc i) y h = get_elem?-append_old xs i y (omega arith)

  pub get_elem?-append_new : (xs : List A) (y : A) → get_elem? (xs ++ (y ∷ [])) (length xs) ≡ some y
  get_elem?-append_new [] y = refl
  get_elem?-append_new (x ∷ xs) y = get_elem?-append_new xs y

  pub set-append_new : (xs : List A) (y z : A) → set (xs ++ (y ∷ [])) (length xs) z ≡ xs ++ (z ∷ [])
  set-append_new [] y z = refl
  set-append_new (x ∷ xs) y z = ap (λ (t : List A). x ∷ t) (set-append_new xs y z)

module _ {ℓ κ} {A : Type ℓ} (P : A → Type κ) where
  pub All-get_elem? : (xs : List A) (i : ℕ) (x : A) → All P xs → get_elem? xs i ≡ some x → P x
  All-get_elem? [] i x h e = cc
  All-get_elem? (y ∷ ys) zero x h e = subst P (some-injective y x e) h.0
  All-get_elem? (y ∷ ys) (suc i) x h e = All-get_elem? ys i x h.1 e

  pub All-set : (xs : List A) (i : ℕ) (x : A) → All P xs → P x → All P (set xs i x)
  All-set [] i x h p = h
  All-set (y ∷ ys) zero x h p = (p, h.1)
  All-set (y ∷ ys) (suc i) x h p = (h.0, All-set ys i x h.1 p)

-- `memcmp(a, b, n) == 0` on two texts of one length, and `strcmp(a, b) == 0` on C strings.
abbrev pub same_bytes : List ℕ → List ℕ → Bool
same_bytes [] [] = true
same_bytes [] (y ∷ ys) = false
same_bytes (x ∷ xs) [] = false
same_bytes (x ∷ xs) (y ∷ ys) = x == y && same_bytes xs ys

pub same_bytes_refl : (xs : List ℕ) → same_bytes xs xs ≡ true
same_bytes_refl [] = refl
same_bytes_refl (x ∷ xs) = ground (arith, same_bytes_refl xs)

pub same_bytes_sound : (xs ys : List ℕ) → same_bytes xs ys ≡ true → xs ≡ ys
same_bytes_sound [] [] h = refl
same_bytes_sound [] (y ∷ ys) h = cc
same_bytes_sound (x ∷ xs) [] h = cc
same_bytes_sound (x ∷ xs) (y ∷ ys) h = ground (arith, same_bytes_sound xs ys)

module _ {ℓ} {A : Type ℓ} where
  pub length-set : (xs : List A) (i : ℕ) (v : A) → length (set xs i v) ≡ length xs
  length-set [] i v = refl
  length-set (x ∷ xs) zero v = refl
  length-set (x ∷ xs) (suc i) v = ap suc (length-set xs i v)

  -- What a write leaves at an index: the new element at its own, the old ones elsewhere.
  pub get_elem?-set :
      (xs : List A) (i j : ℕ) (v w : A)
      → get_elem? (set xs i v) j ≡ some w
      → ((j ≡ i) × (w ≡ v)) ⊎ ((j ≢ i) × (get_elem? xs j ≡ some w))
  get_elem?-set [] i j v w e = cc
  get_elem?-set (x ∷ xs) zero zero v w e = inl (refl, sym (some-injective _ _ e))
  get_elem?-set (x ∷ xs) zero (suc j) v w e = inr (λ p. absurd (omega arith), e)
  get_elem?-set (x ∷ xs) (suc i) zero v w e = inr (λ p. absurd (omega arith), e)
  get_elem?-set (x ∷ xs) (suc i) (suc j) v w e = elim (get_elem?-set xs i j v w e) [
    | inl (p, q) ↦ inl (ap suc p, q)
    | inr (p, q) ↦ inr (λ r. p (omega arith), q)
  ]

  -- What is written within the list is read back.
  pub get_elem?-set_same :
      (xs : List A) (i : ℕ) (v old : A)
      → get_elem? xs i ≡ some old
      → get_elem? (set xs i v) i ≡ some v
  get_elem?-set_same [] i v old e = cc
  get_elem?-set_same (x ∷ xs) zero v old e = refl
  get_elem?-set_same (x ∷ xs) (suc i) v old e = get_elem?-set_same xs i v old e

  pub set-set : (xs : List A) (i : ℕ) (v w : A) → set (set xs i v) i w ≡ set xs i w
  set-set [] i v w = refl
  set-set (x ∷ xs) zero v w = refl
  set-set (x ∷ xs) (suc i) v w = ap (λ rest. x ∷ rest) (set-set xs i v w)

  pub get_elem?-lt : (xs : List A) (i : ℕ) (v : A) → get_elem? xs i ≡ some v → i < length xs
  get_elem?-lt [] i v e = cc
  get_elem?-lt (x ∷ xs) zero v e = omega arith
  get_elem?-lt (x ∷ xs) (suc i) v e = omega (arith, get_elem?-lt xs i v e)

pub same_bytes_sym : (xs ys : List ℕ) → same_bytes xs ys ≡ same_bytes ys xs
same_bytes_sym [] [] = refl
same_bytes_sym [] (y ∷ ys) = refl
same_bytes_sym (x ∷ xs) [] = refl
same_bytes_sym (x ∷ xs) (y ∷ ys) = ground (arith, same_bytes_sym xs ys)
