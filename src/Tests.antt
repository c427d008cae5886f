-- ===== src/Tests.antt =====
-- The theorems at concrete inputs.
mod Chain
mod Policy
mod Memory
mod Parsing
mod Queries
mod Addresses
mod Connection
mod Config
mod Caching
mod Assembly
mod Threads
mod Startup
mod Serving
mod Listening
use greylist.Base.{ℕ}
