-- ===== src/Ber/Oid/RoundTrip.antt =====
-- Dotted text and content bytes of `OIDType` against their specification, the list of arcs.
use arduino_snmp_manager.Common.{
  ℕ, zero, suc, ◌+◌, ◌-◌, ◌*◌, ◌^◌, ◌≤◌, ◌<◌, ◌≡◌, refl, ap, ◌∙◌, Bool, true, false, some, List, [],
  ◌∷◌, ◌++◌, append-nil, append_assoc, arith, IsU32, length, All, length-append, ltb, if◌then◌else◌,
  le→not_ltb, lt→not_leb, ◌>>=◌,
}
use arduino_snmp_manager.Config.{max_oid_length}
use arduino_snmp_manager.Ber.Tag.{oid, wire}
use arduino_snmp_manager.Ber.Header.{read_tlv-tlv, tlv}
use arduino_snmp_manager.Ber.Oid.{
  dot, base128, Scan, scan_arc, scan_text, oid_contents, decimal, read_base128, arc_text,
  print_arcs, oid_text, oid_from_buffer,
}
use arduino_snmp_manager.Ber.Oid.Digits.{Ends, read_arc-decimal, starts_arc-decimal, length-decimal}
use arduino_snmp_manager.Ber.Oid.Base128.{read_base128-base128, length-base128}

abbrev pub print_all : List ℕ → List ℕ
print_all [] = []
print_all (a ∷ arcs) = dot ∷ decimal a ++ print_all arcs

abbrev pub encode_all : List ℕ → List ℕ
encode_all [] = []
encode_all (a ∷ arcs) = base128 a ++ encode_all arcs

-- An object identifier: two arcs and more, within the limits of RFC 2578 and of the buffers.
pub record ObjectId : Type 0 where
  pub root : ℕ
  pub second : ℕ
  pub others : List ℕ

abbrev pub dotted : ObjectId → List ℕ
dotted o = print_all (o.root ∷ o.second ∷ o.others)

abbrev pub encoded : ObjectId → List ℕ
encoded o = encode_all ((o.second + o.root * 40) ∷ o.others)

pub record IsValid (o : ObjectId) : Type 0 where
  pub root_small : o.root ≤ 2
  pub second_small : o.root < 2 → o.second ≤ 39
  pub second_word : IsU32 o.second
  pub words : All IsU32 o.others
  pub few : length o.others + 2 ≤ 128
  pub fits : length (dotted o) < max_oid_length
  pub packed : length (encoded o) ≤ max_oid_length

Ends-print_all : (arcs : List ℕ) → Ends (print_all arcs)
Ends-print_all [] = tt
Ends-print_all (a ∷ arcs) = refl

-- One round of the scanner on a printed arc.
scan_text-arc :
    (fuel a : ℕ) (arcs : List ℕ) (s : Scan)
    → IsU32 a
    → scan_text (suc fuel) (dot ∷ decimal a ++ print_all arcs) s
      ≡ (scan_arc s a >>= λ s'. scan_text fuel (print_all arcs) s')
unfolding scan_text
scan_text-arc fuel a arcs s h = rw (
  starts_arc-decimal a (print_all arcs),
  read_arc-decimal a (print_all arcs) h (Ends-print_all arcs),
)

-- From the third arc on, an arc within the limits is encoded on its own.
scan_arc_later :
    (s : Scan) (a : ℕ)
    → 2 ≤ s.arcs
    → s.arcs < 128
    → length s.contents + length (base128 a) ≤ max_oid_length
    → scan_arc s a
      ≡ some (record { contents = s.contents ++ base128 a; arcs = s.arcs + 1; first = s.first })
unfolding scan_arc
scan_arc_later s a two few fits = ground arith

scan_text-print_all :
    (fuel : ℕ) (arcs : List ℕ) (s : Scan)
    → length arcs ≤ fuel
    → All IsU32 arcs
    → 2 ≤ s.arcs
    → s.arcs + length arcs ≤ 128
    → length s.contents + length (encode_all arcs) ≤ max_oid_length
    → scan_text fuel (print_all arcs) s
      ≡ some (record {
        contents = s.contents ++ encode_all arcs;
        arcs = s.arcs + length arcs;
        first = s.first;
      })
scan_text-print_all fuel [] s hf hw two few fits = rw append-nil (unfold scan_text in ground arith)
scan_text-print_all zero (a ∷ arcs) s hf hw two few fits = absurd (omega arith)
scan_text-print_all (suc fuel) (a ∷ arcs) s hf hw two few fits =
    let e : length (encode_all (a ∷ arcs)) ≡ length (base128 a) + length (encode_all arcs) =
      length-append (base128 a) (encode_all arcs) in
    let step = scan_arc_later s a two (omega arith) (omega arith) in
    let next : Scan = record {
      contents = s.contents ++ base128 a;
      arcs = s.arcs + 1;
      first = s.first;
    } in
    let ih =
      scan_text-print_all fuel arcs next (omega arith) hw.1 (omega arith) (omega arith)
        (omega (arith, length-append s.contents (base128 a))) in
    scan_text-arc fuel a arcs s hw.0
    ∙ rw step (ih ∙ rw (append_assoc s.contents (base128 a) (encode_all arcs)) (ground arith))

-- The first two arcs make one number.
scan_first :
    (root : ℕ)
    → root ≤ 2
    → scan_arc (record { contents = []; arcs = 0; first = 0 }) root
      ≡ some (record { contents = []; arcs = 1; first = root })
unfolding scan_arc
scan_first root h = ground arith

scan_second :
    (root second : ℕ)
    → (root < 2 → second ≤ 39)
    → length (base128 (second + root * 40)) ≤ max_oid_length
    → scan_arc (record { contents = []; arcs = 1; first = root }) second
      ≡ some (record { contents = base128 (second + root * 40); arcs = 2; first = root })
unfolding scan_arc
scan_second root second h k = ground arith

length-print_all : (arcs : List ℕ) → 2 * length arcs ≤ length (print_all arcs)
length-print_all [] = omega arith
length-print_all (a ∷ arcs) =
    omega
      (arith, length-append (decimal a) (print_all arcs), length-decimal a, length-print_all arcs)

scan_text-dotted :
    (fuel : ℕ) (o : ObjectId)
    → IsValid o
    → length o.others + 2 ≤ fuel
    → scan_text fuel (dotted o) (record { contents = []; arcs = 0; first = 0 })
      ≡ some (record { contents = encoded o; arcs = 2 + length o.others; first = o.root })
scan_text-dotted zero o v h = absurd (omega arith)
scan_text-dotted (suc zero) o v h = absurd (omega arith)
scan_text-dotted (suc (suc fuel)) o v h =
    let number = o.second + o.root * 40 in
    let e = length-append (base128 number) (encode_all o.others) in
    let start : Scan = record { contents = []; arcs = 0; first = 0 } in
    let one : Scan = record { contents = []; arcs = 1; first = o.root } in
    let two : Scan = record { contents = base128 number; arcs = 2; first = o.root } in
    scan_text-arc (suc fuel) o.root (o.second ∷ o.others) start (omega (arith, v.root_small))
    ∙ rw (scan_first o.root v.root_small) (
        scan_text-arc fuel o.second o.others one v.second_word
        ∙ rw (scan_second o.root o.second v.second_small (omega (arith, e, v.packed))) (
            scan_text-print_all fuel o.others two (omega arith) v.words (omega arith)
              (omega (arith, v.few)) (omega (arith, e, v.packed))))

-- Scanning the dotted text of a valid object identifier gives the encoding of its arcs: the first two
-- in one number, each in groups of seven bits.
pub oid_contents-dotted : (o : ObjectId) → IsValid o → oid_contents (dotted o) ≡ some (encoded o)
unfolding oid_contents
oid_contents-dotted o v =
    let shape = length-print_all (o.root ∷ o.second ∷ o.others) in
    rw (scan_text-dotted (length (dotted o)) o v (omega (arith, shape))) (ground (arith, v.fits))

-- One round of the printer on a number that it can read, within its limits.
print_arcs_round :
    (fuel : ℕ) (xs : List ℕ) (first : Bool) (arcs : ℕ) (text : List ℕ) (arc : ℕ) (rest : List ℕ)
    → 0 < length xs
    → read_base128 xs 0 0 ≡ some (arc, rest)
    → arc ≤ 2 ^ 32 - 1 + (if first then 80 else 0)
    → arcs + (if first then 2 else 1) ≤ 128
    → length text + length (arc_text first arc) < max_oid_length
    → print_arcs (suc fuel) xs first arcs text
      ≡ print_arcs fuel rest false (arcs + (if first then 2 else 1)) (text ++ arc_text first arc)
unfolding print_arcs
print_arcs_round fuel [] first arcs text arc rest pos e small few fits = absurd (omega arith)
print_arcs_round fuel (b ∷ bs) first arcs text arc rest pos e small few fits = rw (
  e,
  le→not_ltb _ _ small,
  le→not_ltb _ _ few,
  lt→not_leb (max_oid_length - length text) (length (arc_text first arc)) (omega arith),
)

-- One round of the printer on an encoded arc.
print_arcs-base128 :
    (fuel a arcs : ℕ) (rest text : List ℕ)
    → IsU32 a
    → arcs < 128
    → length text + length (dot ∷ decimal a) < max_oid_length
    → print_arcs (suc fuel) (base128 a ++ rest) false arcs text
      ≡ print_arcs fuel rest false (arcs + 1) (text ++ (dot ∷ decimal a))
unfolding arc_text
print_arcs-base128 fuel a arcs rest text h few fits =
    print_arcs_round fuel (base128 a ++ rest) false arcs text a rest
      (omega (arith, length-append (base128 a) rest, length-base128 a))
      (read_base128-base128 a rest (omega arith)) (omega arith) (omega arith) fits

print_arcs-encode_all :
    (fuel : ℕ) (others : List ℕ) (arcs : ℕ) (text : List ℕ)
    → length others ≤ fuel
    → All IsU32 others
    → arcs + length others ≤ 128
    → length text + length (print_all others) < max_oid_length
    → print_arcs fuel (encode_all others) false arcs text ≡ some (text ++ print_all others)
print_arcs-encode_all fuel [] arcs text hf hw few fits =
    rw append-nil (unfold print_arcs in ground arith)
print_arcs-encode_all zero (a ∷ others) arcs text hf hw few fits = absurd (omega arith)
print_arcs-encode_all (suc fuel) (a ∷ others) arcs text hf hw few fits =
    let e = length-append (decimal a) (print_all others) in
    let e' = length-append text (dot ∷ decimal a) in
    print_arcs-base128 fuel a arcs (encode_all others) text hw.0 (omega arith) (omega (arith, e))
    ∙ print_arcs-encode_all fuel others (arcs + 1) (text ++ (dot ∷ decimal a)) (omega arith) hw.1
        (omega arith) (omega (arith, e, e'))
    ∙ ap some (append_assoc text (dot ∷ decimal a) (print_all others))

root_of :
    (root second : ℕ)
    → root ≤ 2
    → (root < 2 → second ≤ 39)
    → (if ltb (second + root * 40) 40 then 0 else if ltb (second + root * 40) 80 then 1 else 2)
      ≡ root
root_of root second h k = ground arith

arc_text-first :
    (root second : ℕ)
    → root ≤ 2
    → (root < 2 → second ≤ 39)
    → arc_text true (second + root * 40) ≡ dot ∷ decimal root ++ (dot ∷ decimal second)
unfolding arc_text
arc_text-first root second h k = rw (root_of root second h k, back) refl
  where
    back : second + root * 40 - root * 40 ≡ second
    back = omega arith

length-encode_all : (arcs : List ℕ) → length arcs ≤ length (encode_all arcs)
length-encode_all [] = omega arith
length-encode_all (a ∷ arcs) =
    omega
      (arith, length-append (base128 a) (encode_all arcs), length-base128 a, length-encode_all arcs)

print_arcs-encoded :
    (fuel : ℕ) (o : ObjectId)
    → IsValid o
    → length o.others < fuel
    → print_arcs fuel (encoded o) true 0 [] ≡ some (dotted o)
print_arcs-encoded zero o v h = absurd (omega arith)
print_arcs-encoded (suc fuel) o v h =
    let number = o.second + o.root * 40 in
    let head = dot ∷ decimal o.root ++ (dot ∷ decimal o.second) in
    let shape = arc_text-first o.root o.second v.root_small v.second_small in
    let whole : head ++ print_all o.others ≡ dotted o =
      append_assoc (dot ∷ decimal o.root) (dot ∷ decimal o.second) (print_all o.others) in
    let size : length head + length (print_all o.others) < max_oid_length =
      omega (arith, v.fits, ap length whole, length-append head (print_all o.others)) in
    let small : 0 + length (arc_text true number) < max_oid_length =
      rw shape (omega (arith, size)) in
    print_arcs_round fuel (encoded o) true 0 [] number (encode_all o.others)
      (omega (arith, length-append (base128 number) (encode_all o.others), length-base128 number))
      (read_base128-base128 number (encode_all o.others)
        (omega (arith, v.root_small, v.second_word)))
      (omega (arith, v.root_small, v.second_word)) (omega arith) small
    ∙ rw shape (
        print_arcs-encode_all fuel o.others 2 head (omega arith) v.words (omega (arith, v.few)) size
        ∙ ap some whole)

-- Decoding the encoding of an object identifier gives its dotted text.
pub oid_text-encoded : (o : ObjectId) → IsValid o → oid_text (encoded o) ≡ some (dotted o)
unfolding oid_text
oid_text-encoded o v =
    let long : length o.others < length (encoded o) =
      omega (arith, length-encode_all ((o.second + o.root * 40) ∷ o.others)) in
    rw (print_arcs-encoded (length (encoded o)) o v long) (ground (arith, long))

-- The encoding of a valid object identifier in its header is read back as the dotted text of the
-- identifier, whatever follows it.
pub oid_from_buffer-tlv :
    (o : ObjectId) (rest : List ℕ)
    → IsValid o
    → oid_from_buffer (tlv (wire oid) (encoded o) ++ rest) ≡ some (dotted o)
unfolding oid_from_buffer
oid_from_buffer-tlv o rest v =
    rw (read_tlv-tlv (wire oid) (encoded o) rest (omega (arith, v.packed))) (oid_text-encoded o v)
