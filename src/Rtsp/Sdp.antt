-- ===== src/Rtsp/Sdp.antt =====
-- Media descriptions: GenerateSDPFromStream of go-legacy/internal/rtsp/sdp.go and the search for a
-- codec of publisher.go. The bytes of an SDP are left out: the handlers only log their number.
use media_stream.Base.{
  ℕ, String, Option, none, some, List, [], ◌∷◌, if◌then◌else◌, or_else, str_eq, Result, ok, err,
}
use media_stream.Core.Stream.{Stream, get_video_codec}

-- format.Format: payload type and packetization mode where the code sets them.
pub data Format : Type 0 where
  h264 : ℕ → ℕ → Format
  h265 : ℕ → Format
  other_format : String → Format

pub data MediaType : Type 0 where
  video audio application : MediaType

-- description.Media
pub record Media : Type 0 where
  pub media_type : MediaType
  pub formats : List Format

pub data SdpError : Type 0 where
  no_codec : SdpError
  unsupported_codec : String → SdpError

abbrev pub generate_h264_media : List Media
generate_h264_media = record { media_type = video; formats = h264 96 1 ∷ [] } ∷ []

abbrev pub generate_h265_media : List Media
generate_h265_media = record { media_type = video; formats = h265 96 ∷ [] } ∷ []

unfoldable pub generate_sdp_from_stream : Stream → Result SdpError (List Media)
generate_sdp_from_stream s =
    let codec = get_video_codec s in
    if str_eq codec ""
    then err no_codec
    else if str_eq codec "H264"
    then ok generate_h264_media
    else if str_eq codec "H265"
    then ok generate_h265_media
    else err (unsupported_codec codec)

-- The inner loop of parseCodecInfo.
unfoldable pub codec_of_formats : List Format → Option String
codec_of_formats [] = none
codec_of_formats (h264 payload mode ∷ fs) = some "H264"
codec_of_formats (h265 payload ∷ fs) = some "H265"
codec_of_formats (other_format name ∷ fs) = codec_of_formats fs

-- The codec that parseCodecInfo sets, if it finds one.
unfoldable pub parse_codec_info : List Media → Option String
unfolding codec_of_formats
parse_codec_info [] = none
parse_codec_info (media ∷ medias) =
    or_else (codec_of_formats media.formats) (parse_codec_info medias)
