-- ===== src/Domain.antt =====
-- The domain models of internal/domain: one record for each struct, and what gorm reads of its tags.
-- An instant is a number of nanoseconds; a price is in hundredths (NUMERIC(14,2)).
pub mod Gift
pub mod Session
pub mod User
pub mod Access
pub mod Auth
