-- ===== src/Client.antt =====
-- src/SNMPClient.h and src/SNMPClient.cpp: the client that owns results and schedules operations on
-- one UDP transport.
pub mod Types
pub mod Value
pub mod Address
pub mod Wire
pub mod Packet
pub mod Operation
pub mod State
pub mod Receive
pub mod Loop
pub mod Notify
pub mod Query
