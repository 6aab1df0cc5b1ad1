-- ===== src/Tests.antt =====
-- Concrete inputs, and the theorems applied to them.
mod Data
mod Codec
mod Queue
mod Client
mod Setup
mod Connect
mod Operations
mod Environment
mod FullTx
mod SigFirst
