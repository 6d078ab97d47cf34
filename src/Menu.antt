-- ===== src/Menu.antt =====
-- oblig1_chattsystem/src/app/text_menu.cpp: the menu that the user's thread runs.
pub mod Strtol
pub mod Choice
pub mod Console
pub mod Listings
pub mod Rooms
pub mod Sessions
pub mod Loop
