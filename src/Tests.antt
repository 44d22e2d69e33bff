-- ===== src/Tests.antt =====
-- The tests, and the theorems at concrete inputs.
mod Accounts
mod Sessions
mod Servers
mod Repositories
mod Workers
mod Tables
mod Databases
mod Pools
mod Registries
mod Tokens
mod Keys
mod Bulks
mod Webhooks
mod Tdlibs
mod Streams
mod Rests
mod Restarts
mod Relays
mod Nodes
