-- ===== src/Core.antt =====
-- internal/core: the proxy between client and server, and the watcher of the server's process.
pub mod Buffer
pub mod Proxy
pub mod Watcher
