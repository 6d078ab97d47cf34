-- ===== src/Direct.antt =====
-- oblig1_chattsystem/src/services/direct_message_service.cpp and its header: closed rooms for two.
pub mod State
pub mod Commands
pub mod Receive
pub mod Upkeep
pub mod Steps
pub mod Cases
pub mod Expiry
pub mod Overdue
pub mod Resent
pub mod Moves
pub mod Reach
pub mod Delivery
pub mod Handshake
pub mod Declined
pub mod Origin
pub mod Stored
