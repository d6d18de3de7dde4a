-- ===== src/Repo.antt =====
-- internal/repositories: what every repository has, and the checks on column names.
pub mod Columns
pub mod Generic
