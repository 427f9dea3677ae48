-- ===== src/Tests.antt =====
-- Runs on concrete inputs: an instance of each theorem with hypotheses, and a few evaluations.
mod Dashboard
mod Statistics
mod Ports
mod Vhost
mod Health
mod Admin
mod Group
mod Control
mod Wrapper
mod Reload
mod Nathole
mod Range
mod Visitor
mod Version
mod Register
mod Proxies
mod Sorting
