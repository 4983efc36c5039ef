-- ===== src/Capture.antt =====
-- Capture files: the hex dump of Printer-Emulator/utils.c that writes them, and the reader of the
-- unit test in Printer-Emulator/main.c.
pub mod Dump
pub mod Scan
pub mod Reader
pub mod Layout
pub mod Rows
pub mod Joining
pub mod Datagrams
pub mod RoundTrip
pub mod Replay
