-- ===== src/Webrtc.antt =====
-- go-legacy/internal/webrtc: the codec that a peer answers an offer with, and the peers' manager.
pub mod Codec
pub mod Engine
pub mod Peers
pub mod Tests
