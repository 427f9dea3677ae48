-- ===== src/Server.antt =====
-- The server, frps: the resources that it hands to its clients, and what it tells the dashboard.
pub mod Api
pub mod Ports
pub mod Group
pub mod Control
pub mod Visitor
pub mod Register
