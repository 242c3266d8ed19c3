-- ===== src/Rtsp.antt =====
-- go-legacy/internal/rtsp: the RTSP server's paths, their publishers and subscribers, and the
-- handlers of its requests.
pub mod Names
pub mod Sdp
pub mod RtspPath
pub mod PathManager
pub mod Client
pub mod Tests
