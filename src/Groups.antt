-- ===== src/Groups.antt =====
-- oblig1_chattsystem/src/services/group_room_coordinator.cpp and its header: open rooms, announced
-- by broadcast, with one multicast membership at a time.
pub mod State
pub mod Channel
pub mod Rooms
pub mod Messages
pub mod Membership
pub mod Reach
pub mod Entry
pub mod Closes
