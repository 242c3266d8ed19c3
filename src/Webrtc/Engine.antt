-- ===== src/Webrtc/Engine.antt =====
-- The codecs that getOrCreateAPI of go-legacy/internal/webrtc/manager.go registers for all peers, and
-- the capabilities of the tracks that createPeerConnection of peer.go makes. The rest of the shared
-- API (interceptors, the replay window, IPv4 over UDP) is a setting of pion/webrtc.
use media_stream.Base.{
  ℕ, ◌≡◌, refl, String, Bool, true, false, List, [], ◌∷◌, ◌&&◌, ◌||◌, ◌==◌, not, str_eq, inl, inr,
  if◌then◌else◌,
}
use media_stream.Webrtc.Codec.{select_video_codec}
use media_stream.Webrtc.Codec.Choice.{select_video_codec_lem}

-- The constants MimeTypeH264, MimeTypeH265 and MimeTypeOpus of pion/webrtc.
pub data MimeType : Type 0 where
  mime_h264 mime_h265 mime_opus : MimeType

abbrev same_mime : MimeType → MimeType → Bool
same_mime mime_h264 mime_h264 = true
same_mime mime_h265 mime_h265 = true
same_mime mime_opus mime_opus = true
same_mime _ _ = false

-- RTPCodecCapability, of which a track gives the first two fields.
pub record Capability : Type 0 where
  pub mime_type : MimeType
  pub clock_rate : ℕ

pub record RegisteredCodec : Type 0 where
  pub capability : Capability
  pub channels : ℕ
  pub fmtp_line : String
  pub payload_type : ℕ
  pub is_video : Bool

abbrev pub registered_codecs : List RegisteredCodec
registered_codecs =
    record {
      capability = record { mime_type = mime_h264; clock_rate = 90_000 };
      channels = 0;
      fmtp_line = "level-asymmetry-allowed=1;packetization-mode=1;profile-level-id=42e01f";
      payload_type = 96;
      is_video = true;
    }
    ∷ record {
      capability = record { mime_type = mime_h265; clock_rate = 90_000 };
      channels = 0;
      fmtp_line = "level-id=180;profile-id=1;tier-flag=0;tx-mode=SRST";
      payload_type = 49;
      is_video = true;
    }
    ∷ record {
      capability = record { mime_type = mime_opus; clock_rate = 48_000 };
      channels = 2;
      fmtp_line = "minptime=10;useinbandfec=1";
      payload_type = 111;
      is_video = false;
    }
    ∷ []

unfoldable pub video_capability : String → Capability
video_capability codec = record {
  mime_type = if str_eq codec "H265" then mime_h265 else mime_h264;
  clock_rate = 90_000;
}

abbrev pub audio_capability : Capability
audio_capability = record { mime_type = mime_opus; clock_rate = 48_000 }

-- The codec is one of the list, for a track of this kind.
abbrev is_registered : Bool → Capability → List RegisteredCodec → Bool
is_registered is_video c [] = false
is_registered is_video c (r ∷ rs) =
    (same_mime r.capability.mime_type c.mime_type
      && (r.capability.clock_rate == c.clock_rate)
      && (if is_video then r.is_video else not r.is_video))
    || is_registered is_video c rs

-- Whatever the offer and the stream, both tracks have a codec that is registered for all peers.
tracks_are_registered :
    (offer : List ℕ) (stream_codec : String)
    → (is_registered true
          (video_capability (select_video_codec offer stream_codec))
          registered_codecs
        ≡ true)
      × (is_registered false audio_capability registered_codecs ≡ true)
unfolding video_capability
tracks_are_registered offer stream_codec = elim (select_video_codec_lem offer stream_codec).0 [
  | inl h ↦ rw (h, video_capability) (refl, refl)
  | inr h ↦ rw (h, video_capability) (refl, refl)
]
