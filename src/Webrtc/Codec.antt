-- ===== src/Webrtc/Codec.antt =====
-- selectVideoCodec of go-legacy/internal/webrtc/peer.go. An offer is its bytes. ToUpper is that of
-- the ASCII letters: no other letter's capital is one of those that the code looks for.
pub mod Choice
use media_stream.Base.{
  ℕ, ◌-◌, String, Bool, true, false, List, [], ◌∷◌, map, ◌&&◌, ◌||◌, leb, ◌==◌, str_eq, not,
  if◌then◌else◌,
}

abbrev upper_byte : ℕ → ℕ
upper_byte b = if leb 97 b && leb b 122 then b - 32 else b

-- strings.ToUpper
unfoldable pub to_upper : List ℕ → List ℕ
to_upper s = map upper_byte s

unfoldable pub has_prefix : List ℕ → List ℕ → Bool
has_prefix s [] = true
has_prefix [] (b ∷ bs) = false
has_prefix (a ∷ s) (b ∷ bs) = (a == b) && has_prefix s bs

-- strings.Contains
unfoldable pub contains : List ℕ → List ℕ → Bool
unfolding has_prefix
contains [] part = has_prefix [] part
contains (a ∷ s) part = has_prefix (a ∷ s) part || contains s part

-- The bytes of "H265", "HEVC", "H264" and "AVC".
abbrev pub h265_bytes : List ℕ
h265_bytes = 72 ∷ 50 ∷ 54 ∷ 53 ∷ []

abbrev pub hevc_bytes : List ℕ
hevc_bytes = 72 ∷ 69 ∷ 86 ∷ 67 ∷ []

abbrev pub h264_bytes : List ℕ
h264_bytes = 72 ∷ 50 ∷ 54 ∷ 52 ∷ []

abbrev pub avc_bytes : List ℕ
avc_bytes = 65 ∷ 86 ∷ 67 ∷ []

unfoldable pub supports_h265 : List ℕ → Bool
unfolding to_upper contains
supports_h265 offer = contains (to_upper offer) h265_bytes || contains (to_upper offer) hevc_bytes

unfoldable pub supports_h264 : List ℕ → Bool
unfolding to_upper contains
supports_h264 offer = contains (to_upper offer) h264_bytes || contains (to_upper offer) avc_bytes

-- The choice among the codecs that the client supports.
unfoldable pub fallback : Bool → Bool → String
fallback h264 h265 = if h264 then "H264" else if h265 then "H265" else "H264"

unfoldable pub select_video_codec : List ℕ → String → String
unfolding supports_h264 supports_h265 fallback
select_video_codec offer stream_codec =
    let h265 = supports_h265 offer in
    let h264 = supports_h264 offer in
    if not (str_eq stream_codec "")
    then (if str_eq stream_codec "H265" && h265
        then "H265"
        else if str_eq stream_codec "H264" && h264
        then "H264"
        else fallback h264 h265)
    else fallback h264 h265
