-- ===== src/Parser.antt =====
-- Printer-Emulator/parser.c: the protocol engine, one module for each mode of the protocol.
pub mod State
pub mod Buffer
pub mod SteadyState
pub mod Report
pub mod History
pub mod LogMode
pub mod Header
pub mod Bounds
pub mod Faults
pub mod Overflow
pub mod Status
pub mod Files
pub mod Leaks
pub mod Polls
pub mod Requests
pub mod Notices
pub mod Snapshots
pub mod Graph
pub mod Triple
pub mod Transfer
pub mod Runs
pub mod Chunks
