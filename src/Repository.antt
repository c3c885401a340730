-- ===== src/Repository.antt =====
-- backend/app/event_analytics/infrastructure/repositories/postgres_analytics_query_repository.py: the
-- statements that it runs, the sessions that it runs them in, and what it makes of their rows. Its
-- SELECT builder for Explore queries is modelled in Explore.Select. PostgreSQL, with the sessions of
-- SQLAlchemy, is a parameter.
pub mod Sql
pub mod Quoting
pub mod Rows
pub mod Grouping
pub mod Metadata
pub mod Semantics
pub mod Database
pub mod Methods
pub mod ReadOnly
pub mod Saving
pub mod Store
mod Examples
