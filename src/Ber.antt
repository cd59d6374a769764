-- ===== src/Ber.antt =====
-- src/BER.h and src/BER.cpp: the BER encoding of SNMP values, one module for each class.
pub mod Tag
pub mod Header
pub mod Octet
pub mod Address
pub mod Oid
pub mod Complex
pub mod Integer
pub mod Counter64
