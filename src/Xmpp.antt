-- ===== src/Xmpp.antt =====
-- src/pyconduit/xmpp/slixmpp_client.py: the implementation of the client interface over slixmpp.
pub mod Library
pub mod Client
pub mod Presence
pub mod Roster
pub mod Messages
pub mod Mentions
pub mod Rooms
pub mod History
pub mod Connection
