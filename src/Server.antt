-- ===== src/Server.antt =====
-- internal/server: the session store (sessions.go) and the WebSocket handlers (ws.go).
pub mod Store
pub mod World
pub mod Handlers
pub mod Threads
pub mod Process
mod Tests
