-- ===== src/Phones.antt =====
-- hub.rs, registry.rs, transport/phone_server.rs: the connected phones.
pub mod Hub
pub mod Registry
pub mod Messages
pub mod Server
