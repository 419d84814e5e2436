-- ===== src/Frame.antt =====
-- Which tables each writing method of the repositories leaves as they were.
pub mod Runs
pub mod Participations
pub mod Bids
pub mod Items
