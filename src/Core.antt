-- ===== src/Core.antt =====
-- go-legacy/internal/core: streams and their manager, the dynamic path store, the configuration.
pub mod Channel
pub mod Stream
pub mod StreamManager
pub mod ConfigStore
pub mod Config
mod Tests
mod StoreTests
