-- ===== src/Udp.antt =====
-- `discardDatagram` of src/SNMPUDP.h: the rest of a datagram is read and dropped.
use arduino_snmp_manager.Common.{
  ==_iff, Bool-cases, Option, Option-cases, arith, false, if◌then◌else◌, inl, inr, leb, ltb,
  lt→not_leb, none, refl, some, suc, true, zero, ℕ, ◌+◌, ◌-◌, ◌<◌, ◌==◌, ◌^◌, ◌||◌, ◌≡◌, ◌≤◌, ◌⊎◌,
}

-- The loop, where `read n chunk` is the answer of `udp.read` at the `n`-th call: `none` for a
-- negative number. The number of calls, and the bytes that are left; `none` without fuel.
unfoldable pub discard : ℕ → (ℕ → ℕ → Option ℕ) → ℕ → ℕ → ℕ → Option (ℕ × ℕ)
discard zero read capacity calls remaining =
    if remaining == 0 then some (calls, remaining) else none
discard (suc fuel) read capacity calls remaining =
    let chunk = if ltb remaining capacity then remaining else capacity in
    if remaining == 0 then some (calls, remaining) else (elim (read calls chunk) [
      | none ↦ some (calls + 1, remaining)
      | some consumed ↦
          if (consumed == 0) || ltb chunk consumed
          then some (calls + 1, remaining)
          else discard fuel read capacity (calls + 1) (remaining - consumed)
    ])

-- `discardDatagram`, for a length that may be negative (a 32-bit pattern): one call for each byte is
-- enough.
unfoldable pub discard_datagram : (ℕ → ℕ → Option ℕ) → ℕ → ℕ → Option (ℕ × ℕ)
unfolding discard
discard_datagram read remaining capacity =
    if leb (2 ^ 31) remaining
    then some (0, remaining)
    else discard remaining read capacity 0 remaining

-- The bytes that a call asks for.
abbrev pub asked : ℕ → ℕ → ℕ
asked capacity remaining = if ltb remaining capacity then remaining else capacity

-- Calls that each deliver at least one byte and at most what they ask for: from `calls` and
-- `remaining` to `n` calls and `left` bytes.
pub data Delivers (read : ℕ → ℕ → Option ℕ) (capacity : ℕ)
    : (calls remaining n left : ℕ) → Type 0 where
  delivered : (calls remaining : ℕ) → Delivers read capacity calls remaining calls remaining
  one_more :
      (calls remaining consumed n left : ℕ)
      → 0 < remaining
      → read calls (asked capacity remaining) ≡ some consumed
      → 0 < consumed
      → consumed ≤ asked capacity remaining
      → Delivers read capacity (calls + 1) (remaining - consumed) n left
      → Delivers read capacity calls remaining n left

-- The answer of the `n`-th call is an error, no byte, or more bytes than were asked for.
abbrev pub Stalls : (ℕ → ℕ → Option ℕ) → ℕ → ℕ → ℕ → Type 0
Stalls read capacity n left =
    (read n (asked capacity left) ≡ none)
    ⊎ ((consumed : ℕ) × (read n (asked capacity left) ≡ some consumed)
        × ((consumed ≡ 0) ⊎ (asked capacity left < consumed)))

-- How the loop ends from `calls` and `remaining`: after calls that deliver, no byte is left, or bytes
-- are left and the next call, the last one, stalls.
pub record Discarded (read : ℕ → ℕ → Option ℕ) (capacity calls remaining : ℕ)
    (outcome : Option (ℕ × ℕ)) : Type 0 where
  pub made : ℕ
  pub n : ℕ
  pub left : ℕ
  pub ends : outcome ≡ some (made, left)
  pub few : made ≤ calls + remaining
  pub run : Delivers read capacity calls remaining n left
  pub complete :
      ((left ≡ 0) × (made ≡ n)) ⊎ ((0 < left) × (made ≡ n + 1) × Stalls read capacity n left)

some_left : (remaining : ℕ) → (remaining == 0) ≡ false → 0 < remaining
some_left remaining h = ground arith

bad_size :
    (consumed chunk : ℕ)
    → ((consumed == 0) || ltb chunk consumed) ≡ true
    → (consumed ≡ 0) ⊎ (chunk < consumed)
bad_size consumed chunk h = elim (Bool-cases (consumed == 0)) [
  | inl e ↦ inl ((==_iff consumed 0).0 e)
  | inr e ↦ inr (ground arith)
]

discard_lem :
    (fuel : ℕ) (read : ℕ → ℕ → Option ℕ) (capacity calls remaining : ℕ)
    → remaining ≤ fuel
    → Discarded read capacity calls remaining (discard fuel read capacity calls remaining)
unfolding discard
discard_lem zero read capacity calls remaining h =
    let none_left : (remaining == 0) ≡ true = ground arith in
    record {
      made = calls;
      n = calls;
      left = remaining;
      ends = rw none_left refl;
      few = omega arith;
      run = delivered calls remaining;
      complete = inl (omega arith, refl);
    }
discard_lem (suc fuel) read capacity calls remaining h = elim (Bool-cases (remaining == 0)) [
  | inl z ↦ record {
    made = calls;
    n = calls;
    left = remaining;
    ends = rw z refl;
    few = omega arith;
    run = delivered calls remaining;
    complete = inl ((==_iff remaining 0).0 z, refl);
  }
  | inr nz ↦ elim (Option-cases (read calls (asked capacity remaining))) [
    | inl e ↦ record {
      made = calls + 1;
      n = calls;
      left = remaining;
      ends = rw (nz, e) refl;
      few = ground arith;
      run = delivered calls remaining;
      complete = inr (some_left remaining nz, refl, inl e);
    }
    | inr (consumed, e) ↦
        elim (Bool-cases ((consumed == 0) || ltb (asked capacity remaining) consumed)) [
          | inl stalled ↦ record {
            made = calls + 1;
            n = calls;
            left = remaining;
            ends = rw (nz, e, stalled) refl;
            few = ground arith;
            run = delivered calls remaining;
            complete = inr (
              some_left remaining nz,
              refl,
              inr (consumed, e, bad_size consumed (asked capacity remaining) stalled),
            );
          }
          | inr fine ↦
              let small : asked capacity remaining ≤ remaining = ground arith in
              let taken : (1 ≤ consumed) × (consumed ≤ asked capacity remaining) =
                (ground arith, ground arith) in
              let later =
                discard_lem fuel read capacity (calls + 1) (remaining - consumed)
                  (omega (arith, taken.0)) in
              record {
                made = later.made;
                n = later.n;
                left = later.left;
                ends = rw (nz, e, fine) later.ends;
                few = omega (arith, later.few, taken.0, taken.1, small);
                run =
                    one_more calls remaining consumed later.n later.left (some_left remaining nz) e
                      taken.0 taken.1 later.run;
                complete = later.complete;
              }
        ]
  ]
]

-- Discarding a datagram ends, whatever the transport answers, after at most one call for each of its
-- bytes: after calls that deliver bytes, none is left, or some are left and the next call, which is
-- the last one, fails, delivers nothing, or delivers more than it was asked for.
pub discard_datagram_ends :
    (read : ℕ → ℕ → Option ℕ) (remaining capacity : ℕ)
    → remaining < 2 ^ 31
    → Discarded read capacity 0 remaining (discard_datagram read remaining capacity)
unfolding discard_datagram
discard_datagram_ends read remaining capacity h =
    rw (lt→not_leb (2 ^ 31) remaining h, discard_datagram)
      (discard_lem remaining read capacity 0 remaining (omega arith))
