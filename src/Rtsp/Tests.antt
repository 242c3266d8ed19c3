-- ===== src/Rtsp/Tests.antt =====
-- The theorems on RTSP paths, at a server with one camera that is published and described.
use media_stream.Base.{
  ℕ, ◌≡◌, refl, true, false, none, some, List, [], ◌∷◌, ok, err, str_eq, eq_iff, arith, subst,
  Bool-cases, inl, inr,
}
use media_stream.GoMap
use media_stream.GoMap.{GoMap}
use media_stream.Core.Stream.{Stream, Packet, selecting, rejected, stream_closed}
use media_stream.Core.StreamManager.{StreamManager, get_stream, remove_stream, stream_not_found}
use media_stream.Core.StreamManager.Laws.{Managed, IsValid}
use media_stream.Rtsp.Names.{strip_slash}
use media_stream.Rtsp.Sdp.{generate_h264_media}
use media_stream.Rtsp.RtspPath.{RtspPath, Publisher, handle_packet}
use media_stream.Rtsp.PathManager.{PathManager, status_bad_request, get_or_create_path, on_announce}
use media_stream.Rtsp.PathManager.Publishing.{
  Request, describes, closes, plays, serve, announced_once,
}
use media_stream.Rtsp.PathManager.Playing.{path_keeps_closed_stream}

abbrev gate : Stream
gate = record {
  id = "gate";
  name = "gate";
  video_codec = "H264";
  subscribers = record { entries = [] };
  workers = [];
  packets_received = 0;
  packets_sent = 0;
  bytes_received = 0;
  bytes_sent = 0;
  packet_buffer = record { cap = 500; items = []; closed = false };
  closed = false;
  distributor = selecting;
}

abbrev gate_streams : StreamManager
gate_streams = record {
  heap = gate ∷ [];
  streams = record { entries = ("gate", 0) ∷ [] };
  video_buffer_size = 500;
  ctx_done = false;
}

gate_streams-IsValid : IsValid gate_streams
unfolding GoMap.get GoMap.lookup
gate_streams-IsValid = record {
  distinct = (refl, tt);
  managed = λ id r e. elim (Bool-cases (str_eq "gate" id)) [
    | inl q ↦
        let first : ◌≡◌ {A = ℕ} 0 r = ground arith in
        subst (λ j. Managed (gate ∷ []) j r) ((eq_iff "gate" id).0 q)
          (subst (Managed (gate ∷ []) "gate") first (record {
            stream = gate;
            at = refl;
            named = refl;
            not_closed = refl;
            buffer_open = refl;
          }))
    | inr q ↦ absurd (ground arith)
  ];
}

abbrev ffmpeg : Publisher
ffmpeg = record {
  path = "gate";
  session = "0xc0001";
  stream = 0;
  medias = generate_h264_media;
  active = true;
}

abbrev gate_path : RtspPath
gate_path = record {
  name = "gate";
  publisher = some ffmpeg;
  subscribers = record { entries = [] };
  stream = 0;
  server_stream = none;
  medias = [];
}

abbrev gate_server : PathManager
gate_server = record {
  paths = record { entries = ("gate", gate_path) ∷ [] };
  streams = gate_streams;
}

abbrev idle_server : PathManager
idle_server = record { paths = record { entries = [] }; streams = gate_streams }

abbrev visits : List Request
visits = describes "/gate" ∷ plays "/gate" "0xc0002" ∷ closes "0xc0001" ∷ []

announced_once_example :
    (on_announce
      (serve (on_announce idle_server "/gate" "0xc0001" generate_h264_media).0 visits)
      "gate"
      "0xc0003"
      generate_h264_media).1
    ≡ status_bad_request
unfolding on_announce get_or_create_path strip_slash GoMap.get GoMap.put
announced_once_example =
    announced_once idle_server "/gate" "gate" "0xc0001" "0xc0003" generate_h264_media
      generate_h264_media visits refl refl

path_keeps_closed_stream_example :
    (m : StreamManager) × (s : Stream) × (remove_stream gate_streams (strip_slash "/gate")
      ≡ some (ok m))
    × (get_stream m (strip_slash "/gate") ≡ err (stream_not_found (strip_slash "/gate")))
    × (get_or_create_path (record gate_server { streams = m }) "/gate"
        ≡ (record gate_server { streams = m }, ok gate_path))
    × ((pkt : Packet) → handle_packet m ffmpeg pkt ≡ some (rejected stream_closed s))
unfolding strip_slash GoMap.get
path_keeps_closed_stream_example =
    path_keeps_closed_stream gate_server "/gate" gate_path ffmpeg 0 gate_streams-IsValid refl refl
      refl refl
