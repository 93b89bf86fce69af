-- ===== src/Http.antt =====
-- The HTTP side of the library (rwf/src/http).
pub mod Cookies
pub mod Form
pub mod Head
pub mod Path
pub mod Router
pub mod Url
pub mod WebSocket
mod Tests
