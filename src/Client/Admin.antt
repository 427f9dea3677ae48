-- ===== src/Client/Admin.antt =====
-- client/admin_api.go: the administration server of the client.
pub mod Status
pub mod Config
