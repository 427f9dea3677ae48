-- ===== src/Client.antt =====
-- The client, frpc.
pub mod Health
pub mod Wrapper
pub mod Admin
pub mod Manager
