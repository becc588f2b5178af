-- ===== src/Tests.antt =====
-- Examples: the theorems at concrete inputs, and runs of the code.
mod Samples
mod Adapters
mod Service
mod Publishing
mod Keys
mod Startup
mod Storing
mod Stars
mod Orchestration
mod Consuming
