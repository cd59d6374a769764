-- ===== src/Config.antt =====
-- The capacities of src/SNMPConfig.h at their defaults on the ESP32, and the width of `size_t`
-- and `unsigned long` there.
use arduino_snmp_manager.Common.{ℕ, ◌-◌, ◌^◌}

abbrev pub snmp_packet_length : ℕ
snmp_packet_length = 1500

abbrev pub snmp_octetstring_max_length : ℕ
snmp_octetstring_max_length = 1024

abbrev pub max_oid_length : ℕ
max_oid_length = 256

abbrev pub snmp_value_max_length : ℕ
snmp_value_max_length = 1024

abbrev pub snmp_max_pending_requests : ℕ
snmp_max_pending_requests = 4

-- `static_cast<size_t>(-1)`, the capacity that stands for unlimited storage.
abbrev pub size_max : ℕ
size_max = 2 ^ 32 - 1
