-- ===== src/Tests.antt =====
-- Runs of the definitions on concrete inputs, and the theorems at inputs that meet their
-- hypotheses.
mod World
mod Payment
mod Replays
mod Resolutions
mod Charges
mod Answers
mod Handlers
mod Deliveries
mod Processes
mod Requests
mod System
mod Tenants
mod Signatures
