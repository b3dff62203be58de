-- ===== src/Go.antt =====
-- What the program uses of Go and its standard library: texts, maps, addresses, pointers and faults.
pub mod Text
pub mod Dict
pub mod Ip
pub mod Path
pub mod Heap
pub mod Outcome
pub mod Decimal
pub mod Int
pub mod Scan
pub mod HostPort
