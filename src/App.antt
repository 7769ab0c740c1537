-- ===== src/App.antt =====
-- The application around the core: its configuration and files, the JSON of its interface, the
-- control API's router, the start-up and the tick handler.
pub mod Json
pub mod Config
pub mod Files
pub mod RuntimeState
pub mod Format
pub mod Context
pub mod Handlers
pub mod Updates
pub mod Trade
pub mod Bootstrap
pub mod Router
pub mod RunGuard
pub mod Main
pub mod Live
pub mod Server
pub mod Program
pub mod Locks
