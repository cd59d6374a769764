-- ===== src/Ber/Address.antt =====
-- `NetworkAddress` and `NullType` of src/BER.cpp. An `IPAddress` is its four octets.
use arduino_snmp_manager.Common.{
  ℕ, ◌≡◌, Bool, true, false, Option, none, some, List, [], ◌∷◌, ◌++◌, arith, length, same_bytes,
  same_bytes_refl, ◌==◌, ◌>>=◌,
}
use arduino_snmp_manager.Ber.Tag.{nulltype, network_address, wire}
use arduino_snmp_manager.Ber.Header.{read_tlv-tlv, Dest, put, read_tlv}

pub record IpAddress : Type 0 where
  pub a : ℕ
  pub b : ℕ
  pub c : ℕ
  pub d : ℕ

abbrev pub ip_bytes : IpAddress → List ℕ
ip_bytes ip = ip.a ∷ ip.b ∷ ip.c ∷ ip.d ∷ []

-- `operator==` of `IPAddress`.
abbrev pub same_ip : IpAddress → IpAddress → Bool
same_ip p q = same_bytes (ip_bytes p) (ip_bytes q)

-- `NetworkAddress::serialise`.
unfoldable pub network_address_serialise : IpAddress → Dest → ℕ → Option (ℕ × List ℕ)
network_address_serialise ip dest capacity =
    put dest capacity (wire network_address ∷ 4 ∷ ip_bytes ip)

abbrev four_octets : List ℕ → Option IpAddress
four_octets (a ∷ b ∷ c ∷ d ∷ []) = some (record { a = a; b = b; c = c; d = d })
four_octets _ = none

-- `NetworkAddress::fromBuffer`.
unfoldable pub network_address_from_buffer : List ℕ → Option IpAddress
network_address_from_buffer buf = read_tlv (wire network_address) buf >>= four_octets

-- `NullType::serialise`.
unfoldable pub null_serialise : Dest → ℕ → Option (ℕ × List ℕ)
null_serialise dest capacity = put dest capacity (wire nulltype ∷ 0 ∷ [])

-- `NullType::fromBuffer`: true for the NULL framing.
unfoldable pub null_from_buffer : List ℕ → Bool
null_from_buffer buf = elim (read_tlv (wire nulltype) buf) [
  | none ↦ false
  | some contents ↦ length contents == 0
]

pub network_address_from_buffer-tlv :
    (ip : IpAddress) (rest : List ℕ)
    → network_address_from_buffer (wire network_address ∷ 4 ∷ ip_bytes ip ++ rest) ≡ some ip
unfolding network_address_from_buffer
network_address_from_buffer-tlv ip rest =
    rw (read_tlv-tlv (wire network_address) (ip_bytes ip) rest (omega arith))

pub null_from_buffer-tlv : (rest : List ℕ) → null_from_buffer (wire nulltype ∷ 0 ∷ rest) ≡ true
unfolding null_from_buffer
null_from_buffer-tlv rest =
    rw (null_from_buffer, read_tlv-tlv (wire nulltype) [] rest (omega arith))

pub same_ip_refl : (p : IpAddress) → same_ip p p ≡ true
same_ip_refl p = same_bytes_refl (ip_bytes p)

pub same_ip_sound : (p q : IpAddress) → same_ip p q ≡ true → p ≡ q
same_ip_sound p q h = ground arith
