-- ===== src/BidService.antt =====
-- backend/app/services/bid_service.py: placing and retracting bids.
pub mod Adjusting
pub mod Limit
pub mod Methods
