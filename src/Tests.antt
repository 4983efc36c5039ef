-- ===== src/Tests.antt =====
-- Concrete runs of the definitions, and the theorems at concrete inputs.
mod Data
mod Engine
mod Transfer
mod Services
mod Clients
mod Capture
mod Main
mod Exits
