-- ===== src/Gift/Safety.antt =====
-- What the service's operations never do: what follows from who calls them, and from an error.
pub mod Ownership
pub mod Atomicity
