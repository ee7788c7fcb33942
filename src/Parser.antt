-- ===== src/Parser.antt =====
-- The parsers of what the guest prints (custom_components/hubinet_ops/packages/parser.py).
pub mod Lines
pub mod Match
pub mod Order
pub mod Fault
pub mod System
pub mod Evidence
pub mod Candidate
pub mod Apt
pub mod Autoremove
pub mod Sound
pub mod Forbidden
pub mod Inventory
pub mod Counts
pub mod Trips
pub mod Safe
pub mod Examples
