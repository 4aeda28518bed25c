-- ===== src/Web.antt =====
-- src/pyconduit/web: the application, with the sockets of all its tabs at once.
pub mod Sockets
pub mod History
pub mod Heap
pub mod Private
pub mod Wiring
pub mod Responses
pub mod Shutdown
