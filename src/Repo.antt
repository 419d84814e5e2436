-- ===== src/Repo.antt =====
-- The repositories' methods that the modelled services call, after backend/app/repositories/memory;
-- the methods of backend/app/repositories/database query and write the same rows.
pub mod Availabilities
pub mod Groups
pub mod Merging
pub mod Runs
pub mod Bids
pub mod Shopping
pub mod Requests
pub mod Directory
pub mod Notifications
