-- ===== src/Vhost.antt =====
-- pkg/util/vhost: the routing of requests to the proxies of a virtual host.
pub mod Router
pub mod Muxer
