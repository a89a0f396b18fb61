-- ===== src/Proxy.antt =====
-- internal/proxy: which backend a request goes to, what the backend sees, and how it is drained.
pub mod Router
pub mod Rewrite
pub mod Drain
pub mod Tcp
pub mod Handler
pub mod Tracker
mod Tests
