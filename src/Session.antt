-- ===== src/Session.antt =====
-- src/pyconduit/session: the account that the tabs of one JID share.
pub mod World
pub mod Events
pub mod Account
pub mod Commands
pub mod Broadcast
pub mod Dispatch
pub mod Kept
pub mod Invariant
pub mod Lifecycle
pub mod History
pub mod Steps
pub mod View
pub mod Private
pub mod Unattended
pub mod Rejoin
pub mod Client
pub mod Served
pub mod Manager
