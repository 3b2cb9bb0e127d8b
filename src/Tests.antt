-- ===== src/Tests.antt =====
-- The theorems at concrete inputs.
mod Gates
mod Handlers
mod Raw
mod Api
mod Endpoint
mod Commands
