-- ===== src/Tests.antt =====
-- Runs of the model on concrete data, and the theorems at inputs that meet their hypotheses.
mod Sample
mod Stock
mod Safety
mod Friends
mod Invalidation
mod Security
mod Access
mod Sessions
mod Resets
mod Accounts
