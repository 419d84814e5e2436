-- ===== src/GroupService.antt =====
-- backend/app/services/group_service.py: groups, their members and their admins. The methods that
-- only read and format are not modelled, and neither are the broadcasts over WebSocket.
pub mod Roles
pub mod Lists
pub mod Parts
pub mod Departure
pub mod Methods
pub mod Frames
pub mod Requests
pub mod Yields
pub mod Refinement
pub mod Runs
pub mod Joining
pub mod Admins
