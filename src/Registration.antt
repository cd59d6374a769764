-- ===== src/Registration.antt =====
-- The registered callbacks of src/ValueCallbacks.h with their destinations, which the application
-- owns: a destination is an index into the application's variables and buffers, so that two
-- registrations may share one. Callbacks are shared too, between a manager and the requests.
use arduino_snmp_manager.Ber.Address.{IpAddress}
use arduino_snmp_manager.Ber.Complex.{
  Container, counter64_type, integer_type, octet_type, oid_type, raw_type,
}
use arduino_snmp_manager.Ber.Tag.{AsnType, counter32, counter64, gauge32, integer, oid, timestamp}
use arduino_snmp_manager.Client.Value.{has_zero}
use arduino_snmp_manager.Common.{
  Bool, List, Option, [], drop, false, get_elem?, if◌then◌else◌, leb, length, ltb, none, set, some,
  ℕ, ◌++◌, ◌+◌, ◌==◌, ◌>>=◌, ◌||◌, ◌∷◌,
}
use arduino_snmp_manager.Tracking.{Tracker}

-- A variable or a buffer of the application: a 32-bit or 64-bit word, a `float` that is given as its
-- number of tenths (a 32-bit pattern; the rounding of `float` is left out), an array, or a `char *`
-- that may be null.
pub data Cell : Type 0 where
  word : ℕ → Cell
  tenths : ℕ → Cell
  array : List ℕ → Cell
  pointer : Option (List ℕ) → Cell

-- The destination of each callback class; `none` is a null pointer. `untyped` is a registration of
-- the base class, for a type that no class is for.
pub data Destination : Type 0 where
  integer_to float_to timestamp_to counter32_to gauge32_to counter64_to : ℕ → Destination
  text_to : AsnType → Option ℕ → ℕ → Destination
  bytes_to : AsnType → ℕ → ℕ → ℕ → Destination
  oid_to : Option ℕ → ℕ → Destination
  untyped : AsnType → Destination

-- `ValueCallback::type`.
abbrev pub callback_type : Destination → AsnType
callback_type (integer_to at) = integer
callback_type (float_to at) = integer
callback_type (timestamp_to at) = timestamp
callback_type (counter32_to at) = counter32
callback_type (gauge32_to at) = gauge32
callback_type (counter64_to at) = counter64
callback_type (text_to type at capacity) = type
callback_type (bytes_to type at capacity length_at) = type
callback_type (oid_to at capacity) = oid
callback_type (untyped type) = type

-- `ValueCallback`: `updates` is `updateSerial`, which wraps at 32 bits.
pub record Callback : Type 0 where
  pub name : Option (List ℕ)
  pub ip : IpAddress
  pub destination : Destination
  pub updates : ℕ
  pub tracker : Tracker

-- All callbacks, by their addresses, and the application's variables.
pub record Heap : Type 0 where
  pub callbacks : List Callback
  pub cells : List Cell

-- Whether an address is in a list of callbacks.
abbrev pub is_listed : ℕ → List ℕ → Bool
is_listed i [] = false
is_listed i (j ∷ rest) = (j == i) || is_listed i rest

abbrev pub store_callback : ℕ → Callback → Heap → Heap
store_callback i callback heap = record heap { callbacks = set heap.callbacks i callback }

-- A write through a pointer. A dangling pointer, or one to a variable of another type, writes nothing.
abbrev pub store_cell : ℕ → (Cell → Option Cell) → List Cell → Option (List Cell)
store_cell at change cells =
    get_elem? cells at >>= λ old. change old >>= λ new. some (set cells at new)

abbrev pub put_word : ℕ → Cell → Option Cell
put_word v (word old) = some (word v)
put_word v cell = none

abbrev pub put_tenths : ℕ → Cell → Option Cell
put_tenths v (tenths old) = some (tenths v)
put_tenths v cell = none

-- `memcpy` to the start of an array.
abbrev pub put_array : List ℕ → Cell → Option Cell
put_array source (array old) = some (array (source ++ drop (length source) old))
put_array source cell = none

-- The copy and the terminator, through a `char *` that must not be null.
abbrev pub put_text : List ℕ → Cell → Option Cell
put_text source (pointer (some old)) =
    some (pointer (some (source ++ 0 ∷ drop (length source + 1) old)))
put_text source cell = none

-- `memcpy(destination->bytes, …); *destination->length = length`.
unfoldable pub write_bytes : ℕ → ℕ → ℕ → List ℕ → List Cell → Option (List Cell)
write_bytes at capacity length_at source cells =
    if ltb capacity (length source)
    then none
    else (store_cell at (put_array source) cells >>= λ cells'.
        store_cell length_at (put_word (length source)) cells')

unfoldable pub write_text : Option ℕ → ℕ → List ℕ → List Cell → Option (List Cell)
write_text none capacity source cells = none
write_text (some at) capacity source cells =
    if leb capacity (length source) || has_zero source
    then none
    else store_cell at (put_text source) cells

unfoldable pub write_oid : Option ℕ → ℕ → List ℕ → List Cell → Option (List Cell)
write_oid none capacity source cells = none
write_oid (some at) capacity source cells =
    if leb capacity (length source)
    then none
    else store_cell at (put_array (source ++ 0 ∷ [])) cells

-- The `switch` of `SNMPManager::parsePacket` on the type of the callback, for a value of that type:
-- the variables afterwards, or `none` where nothing is written and no update is counted.
unfoldable pub write : Destination → Container → List Cell → Option (List Cell)
unfolding write_bytes write_text write_oid
write (integer_to at) (integer_type type v) cells = store_cell at (put_word v) cells
write (float_to at) (integer_type type v) cells = store_cell at (put_tenths v) cells
write (timestamp_to at) (integer_type type v) cells = store_cell at (put_word v) cells
write (counter32_to at) (integer_type type v) cells = store_cell at (put_word v) cells
write (gauge32_to at) (integer_type type v) cells = store_cell at (put_word v) cells
write (counter64_to at) (counter64_type v) cells = store_cell at (put_word v) cells
write (text_to type at capacity) (octet_type o) cells = write_text at capacity o.value cells
write (text_to type at capacity) (raw_type raw v) cells = write_text at capacity v cells
write (bytes_to type at capacity length_at) (octet_type o) cells =
    write_bytes at capacity length_at o.value cells
write (bytes_to type at capacity length_at) (raw_type raw v) cells =
    write_bytes at capacity length_at v cells
write (oid_to at capacity) (oid_type text) cells = write_oid at capacity text cells
write destination value cells = none
