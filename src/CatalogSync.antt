-- ===== src/CatalogSync.antt =====
-- app/sync_normalize.py and app/sync.py: a provider's list of services, cleaned and taken into the
-- catalog.
pub mod Normalize
pub mod Provide
pub mod Kept
pub mod Closed
pub mod Counts
pub mod Aborted
pub mod Bounds
