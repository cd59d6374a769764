-- ===== src/Ber/Oid/Bounds.antt =====
-- The content bytes of an object identifier fit in the local array, and the text fits in `_value`.
use arduino_snmp_manager.Common.{
  ℕ, zero, suc, ◌+◌, ◌*◌, ◌≤◌, ◌≡◌, inl, inr, some, List, [], ◌∷◌, arith, length, length-append,
  Bool-cases, Option-cases, >>=-eq-some,
}
use arduino_snmp_manager.Config.{max_oid_length}
use arduino_snmp_manager.Ber.Oid.{
  read_arc, base128, Scan, store_arc, scan_arc, starts_arc, scan_text, oid_contents,
}

store_arc_bound :
    (s t : Scan) (arc : ℕ) → store_arc s arc ≡ some t → length t.contents ≤ max_oid_length
unfolding store_arc
store_arc_bound s t arc e = ground (arith, length-append s.contents (base128 arc))

scan_arc_bound :
    (s t : Scan) (arc : ℕ)
    → length s.contents ≤ max_oid_length
    → scan_arc s arc ≡ some t
    → length t.contents ≤ max_oid_length
unfolding scan_arc
scan_arc_bound s t arc h e =
    ground (arith, store_arc_bound s t (arc + s.first * 40), store_arc_bound s t arc)

scan_text_bound :
    (fuel : ℕ) (text : List ℕ) (s t : Scan)
    → length s.contents ≤ max_oid_length
    → scan_text fuel text s ≡ some t
    → length t.contents ≤ max_oid_length
unfolding scan_text
scan_text_bound fuel [] s t h e = ground arith
scan_text_bound zero (c ∷ rest) s t h e = cc
scan_text_bound (suc fuel) (c ∷ rest) s t h e = elim (Bool-cases (starts_arc (c ∷ rest))) [
  | inr no_arc ↦ cc (rw no_arc at e)
  | inl arc ↦
      let read = >>=-eq-some (read_arc rest 0) _ (rw arc at e) in
      let stored = >>=-eq-some (scan_arc s (read.0).0) _ (read.2) in
      scan_text_bound fuel (read.0).1 stored.0 t (scan_arc_bound s stored.0 (read.0).0 h stored.1)
        stored.2
]

-- The contents that the encoder makes of any text fit in the array that holds them.
pub length-oid_contents :
    (text contents : List ℕ) → oid_contents text ≡ some contents → length contents ≤ max_oid_length
unfolding oid_contents
length-oid_contents text contents e =
    let start : Scan = record { contents = []; arcs = 0; first = 0 } in
    elim (Option-cases (scan_text (length text) text start)) [
      | inl p ↦ ground (arith, p)
      | inr (t, p) ↦ ground (arith, p, scan_text_bound (length text) text start t (omega arith) p)
    ]
