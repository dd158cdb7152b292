-- ===== src/Tests.antt =====
-- The theorems on concrete providers, clients and hoards.
pub mod Instances
pub mod Fixtures
mod Providers
mod Clients
mod Hoards
mod Lifecycles
mod Threads
mod Benchmark
mod Examples
mod Streams
mod Invalid
