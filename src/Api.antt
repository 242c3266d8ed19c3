-- ===== src/Api.antt =====
-- go-legacy/internal/api: the HTTP handlers over the path store and the process manager.
pub mod PathsHandler
pub mod Hls
pub mod Streams
pub mod Tests
