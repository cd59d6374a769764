-- ===== src/Manager/Memory.antt =====
-- The kinds and sizes of the application's variables, which the writes of `SNMPManager::parsePacket` in
-- src/Arduino_SNMP_Manager.cpp keep.
use arduino_snmp_manager.Ber.Complex.{
  Container, counter64_type, integer_type, null_type, octet_type, oid_type, raw_type,
}
use arduino_snmp_manager.Client.Value.{has_zero}
use arduino_snmp_manager.Common.{
  >>=-eq-some, List, Option, [], ap, arith, drop, get_elem?, leb, length, length-append,
  length-drop, ltb, none, not_ltb→le, refl, set, some, suc, sym, unless-some, zero, ℕ, ◌++◌, ◌+◌,
  ◌<◌, ◌||◌, ◌∙◌, ◌∷◌, ◌≡◌, ◌≤◌,
}
use arduino_snmp_manager.Registration.{
  Callback, Cell, Destination, Heap, array, bytes_to, counter32_to, counter64_to, float_to,
  gauge32_to, integer_to, oid_to, pointer, put_array, put_tenths, put_text, put_word, store_cell,
  tenths, text_to, timestamp_to, untyped, word, write, write_bytes, write_oid, write_text,
}
use mathlib.Core.Option.{some-injective}

-- The kind of a variable, and the size of a buffer.
pub data Shape : Type 0 where
  single fraction null : Shape
  array_of text_of : ℕ → Shape

abbrev pub shape : Cell → Shape
shape (word v) = single
shape (tenths v) = fraction
shape (array xs) = array_of (length xs)
shape (pointer none) = null
shape (pointer (some xs)) = text_of (length xs)

abbrev pub shapes : List Cell → List Shape
shapes [] = []
shapes (cell ∷ cells) = shape cell ∷ shapes cells

-- A buffer has the capacity that its registration states.
abbrev pub HasRoom : Destination → List Shape → Type 0
HasRoom (bytes_to type at capacity length_at) room =
    (n : ℕ) → get_elem? room at ≡ some (array_of n) → capacity ≤ n
HasRoom (text_to type (some at) capacity) room =
    (n : ℕ) → get_elem? room at ≡ some (text_of n) → capacity ≤ n
HasRoom (oid_to (some at) capacity) room =
    (n : ℕ) → get_elem? room at ≡ some (array_of n) → capacity ≤ n
HasRoom destination room = Unit

pub record IsRoomy (heap : Heap) : Type 0 where
  pub room :
      (i : ℕ) (callback : Callback)
      → get_elem? heap.callbacks i ≡ some callback
      → HasRoom callback.destination (shapes heap.cells)

shape-get_elem? :
    (cells : List Cell) (at : ℕ) (cell : Cell)
    → get_elem? cells at ≡ some cell
    → get_elem? (shapes cells) at ≡ some (shape cell)
shape-get_elem? [] at cell e = cc
shape-get_elem? (x ∷ cells) zero cell e = ap (λ (c : Cell). some (shape c)) (some-injective _ _ e)
shape-get_elem? (x ∷ cells) (suc at) cell e = shape-get_elem? cells at cell e

shapes-set :
    (cells : List Cell) (at : ℕ) (old new : Cell)
    → get_elem? cells at ≡ some old
    → shape new ≡ shape old
    → shapes (set cells at new) ≡ shapes cells
shapes-set [] at old new e h = cc
shapes-set (x ∷ cells) zero old new e h =
    ap (λ (s : Shape). s ∷ shapes cells) (h ∙ ap shape (sym (some-injective _ _ e)))
shapes-set (x ∷ cells) (suc at) old new e h =
    ap (λ (l : List Shape). shape x ∷ l) (shapes-set cells at old new e h)

-- A write through a pointer keeps all shapes, where the change keeps the shape of what it finds.
shapes-store_cell :
    (at : ℕ) (change : Cell → Option Cell) (cells cells' : List Cell)
    → ((old new : Cell)
        → get_elem? cells at ≡ some old
        → change old ≡ some new
        → shape new ≡ shape old)
    → store_cell at change cells ≡ some cells'
    → shapes cells' ≡ shapes cells
shapes-store_cell at change cells cells' keep e =
    let (old, found, rest) = >>=-eq-some (get_elem? cells at) _ e in
    let (new, changed, done) = >>=-eq-some (change old) _ rest in
    ap shapes (sym (some-injective _ _ done))
    ∙ shapes-set cells at old new found (keep old new found changed)

put_word-shape : (v : ℕ) (old new : Cell) → put_word v old ≡ some new → shape new ≡ shape old
put_word-shape v (word old) new e = ap shape (sym (some-injective _ _ e))
put_word-shape v (tenths old) new e = cc
put_word-shape v (array old) new e = cc
put_word-shape v (pointer old) new e = cc

put_tenths-shape : (v : ℕ) (old new : Cell) → put_tenths v old ≡ some new → shape new ≡ shape old
put_tenths-shape v (tenths old) new e = ap shape (sym (some-injective _ _ e))
put_tenths-shape v (word old) new e = cc
put_tenths-shape v (array old) new e = cc
put_tenths-shape v (pointer old) new e = cc

-- Copying into the front of a long enough array keeps its size.
length-overwrite :
    (source old : List ℕ) (n : ℕ)
    → n ≡ length source
    → n ≤ length old
    → length (source ++ drop n old) ≡ length old
length-overwrite source old n e h =
    omega (arith, length-append source (drop n old), length-drop n old h)

length-terminate :
    (source old : List ℕ)
    → length source < length old
    → length (source ++ 0 ∷ drop (length source + 1) old) ≡ length old
length-terminate source old h = omega (
  arith,
  length-append source (0 ∷ drop (length source + 1) old),
  length-drop (length source + 1) old (omega arith),
)

put_array-shape :
    (source : List ℕ) (old new : Cell)
    → ((n : ℕ) → shape old ≡ array_of n → length source ≤ n)
    → put_array source old ≡ some new
    → shape new ≡ shape old
put_array-shape source (array old) new h e =
    ap shape (sym (some-injective _ _ e))
    ∙ ap array_of (length-overwrite source old (length source) refl (h (length old) refl))
put_array-shape source (word old) new h e = cc
put_array-shape source (tenths old) new h e = cc
put_array-shape source (pointer old) new h e = cc

put_text-shape :
    (source : List ℕ) (old new : Cell)
    → ((n : ℕ) → shape old ≡ text_of n → length source < n)
    → put_text source old ≡ some new
    → shape new ≡ shape old
put_text-shape source (pointer (some old)) new h e =
    ap shape (sym (some-injective _ _ e))
    ∙ ap text_of (length-terminate source old (h (length old) refl))
put_text-shape source (pointer none) new h e = cc
put_text-shape source (word old) new h e = cc
put_text-shape source (tenths old) new h e = cc
put_text-shape source (array old) new h e = cc

write_bytes-shapes :
    (at capacity length_at : ℕ) (source : List ℕ) (cells cells' : List Cell)
    → ((n : ℕ) → get_elem? (shapes cells) at ≡ some (array_of n) → capacity ≤ n)
    → write_bytes at capacity length_at source cells ≡ some cells'
    → shapes cells' ≡ shapes cells
unfolding write_bytes
write_bytes-shapes at capacity length_at source cells cells' h e =
    let (short, rest) = unless-some (ltb capacity (length source)) _ e in
    let (middle, first, second) = >>=-eq-some (store_cell at (put_array source) cells) _ rest in
    shapes-store_cell length_at (put_word (length source)) middle cells'
      (λ old new _. put_word-shape (length source) old new) second
    ∙ shapes-store_cell at (put_array source) cells middle
        (λ old new found. put_array-shape source old new (λ n s. omega (
          arith,
          not_ltb→le capacity (length source) short,
          h n (shape-get_elem? cells at old found ∙ ap some s),
        )))
        first

write_text-shapes :
    (at capacity : ℕ) (source : List ℕ) (cells cells' : List Cell)
    → ((n : ℕ) → get_elem? (shapes cells) at ≡ some (text_of n) → capacity ≤ n)
    → write_text (some at) capacity source cells ≡ some cells'
    → shapes cells' ≡ shapes cells
unfolding write_text
write_text-shapes at capacity source cells cells' h e =
    let (short, rest) = unless-some (leb capacity (length source) || has_zero source) _ e in
    let fits : length source < capacity = ground (arith, short) in
    shapes-store_cell at (put_text source) cells cells'
      (λ old new found.
        put_text-shape source old new
          (λ n s. omega (arith, fits, h n (shape-get_elem? cells at old found ∙ ap some s))))
      rest

write_oid-shapes :
    (at capacity : ℕ) (source : List ℕ) (cells cells' : List Cell)
    → ((n : ℕ) → get_elem? (shapes cells) at ≡ some (array_of n) → capacity ≤ n)
    → write_oid (some at) capacity source cells ≡ some cells'
    → shapes cells' ≡ shapes cells
unfolding write_oid
write_oid-shapes at capacity source cells cells' h e =
    let (short, rest) = unless-some (leb capacity (length source)) _ e in
    let fits : length source < capacity = ground (arith, short) in
    shapes-store_cell at (put_array (source ++ 0 ∷ [])) cells cells'
      (λ old new found. put_array-shape (source ++ 0 ∷ []) old new (λ n s. omega (
        arith,
        fits,
        length-append source (0 ∷ []),
        h n (shape-get_elem? cells at old found ∙ ap some s),
      )))
      rest

-- Every write of the switch keeps all shapes, where the destination has room.
pub write-shapes :
    (destination : Destination) (value : Container) (cells cells' : List Cell)
    → HasRoom destination (shapes cells)
    → write destination value cells ≡ some cells'
    → shapes cells' ≡ shapes cells
unfolding write
write-shapes (integer_to at) (integer_type type v) cells cells' h e =
    shapes-store_cell at (put_word v) cells cells' (λ old new _. put_word-shape v old new) e
write-shapes (float_to at) (integer_type type v) cells cells' h e =
    shapes-store_cell at (put_tenths v) cells cells' (λ old new _. put_tenths-shape v old new) e
write-shapes (timestamp_to at) (integer_type type v) cells cells' h e =
    shapes-store_cell at (put_word v) cells cells' (λ old new _. put_word-shape v old new) e
write-shapes (counter32_to at) (integer_type type v) cells cells' h e =
    shapes-store_cell at (put_word v) cells cells' (λ old new _. put_word-shape v old new) e
write-shapes (gauge32_to at) (integer_type type v) cells cells' h e =
    shapes-store_cell at (put_word v) cells cells' (λ old new _. put_word-shape v old new) e
write-shapes (counter64_to at) (counter64_type v) cells cells' h e =
    shapes-store_cell at (put_word v) cells cells' (λ old new _. put_word-shape v old new) e
write-shapes (text_to type (some at) capacity) (octet_type o) cells cells' h e =
    write_text-shapes at capacity o.value cells cells' h e
write-shapes (text_to type (some at) capacity) (raw_type raw v) cells cells' h e =
    write_text-shapes at capacity v cells cells' h e
write-shapes (bytes_to type at capacity length_at) (octet_type o) cells cells' h e =
    write_bytes-shapes at capacity length_at o.value cells cells' h e
write-shapes (bytes_to type at capacity length_at) (raw_type raw v) cells cells' h e =
    write_bytes-shapes at capacity length_at v cells cells' h e
write-shapes (oid_to (some at) capacity) (oid_type source) cells cells' h e =
    write_oid-shapes at capacity source cells cells' h e
write-shapes (text_to type none capacity) (octet_type o) cells cells' h e = cc
write-shapes (text_to type none capacity) (raw_type raw v) cells cells' h e = cc
write-shapes (oid_to none capacity) (oid_type source) cells cells' h e = cc
write-shapes (untyped type) null_type cells cells' h e = cc
write-shapes _ _ cells cells' h e = cc
