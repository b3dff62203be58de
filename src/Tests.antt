-- ===== src/Tests.antt =====
-- Concrete inputs: tests of the definitions, and the theorems at inputs that meet their hypotheses.
mod Zone
mod Records
mod Caching
mod Forwarding
mod Domains
mod Requests
mod Remote
mod Lists
mod Loading
mod Settings
mod Signals
mod Starting
mod Serving
mod Living
mod Interleaved
