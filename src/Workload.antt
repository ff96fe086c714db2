-- ===== src/Workload.antt =====
-- The workload file: ycsbc/db/export.hpp writes it, and main.cpp reads it.
pub mod Bytes
pub mod Export
pub mod Load
pub mod RoundTrip
pub mod Setup
