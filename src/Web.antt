-- ===== src/Web.antt =====
-- The dashboards, web/frps and web/frpc: pages that fetch JSON from the daemons and show it.
pub mod Value
pub mod Proxy
pub mod Calendar
pub mod Chart
pub mod Page
pub mod Overview
pub mod View
pub mod Proxies
pub mod Traffic
pub mod Configure
pub mod Status
pub mod Table
pub mod Routes
