-- ===== src/Cctv.antt =====
-- The cameras that an external API lists: the client of that API (go-legacy/internal/client) and the
-- manager that keeps the list (go-legacy/internal/cctv).
pub mod ApiClient
pub mod Manager
mod Tests
