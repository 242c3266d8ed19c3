-- ===== src/Rtsp/PathManager.antt =====
-- `PathManager` of go-legacy/internal/rtsp/path_manager.go and the handlers of server_rtsp.go. A
-- *Path is its key: paths are never deleted or replaced.
pub mod Describe
pub mod Published
pub mod Publishing
pub mod Playing
use media_stream.Base.{
  ℕ, String, [], ◌∷◌, Bool, true, false, Option, none, some, List, if◌then◌else◌, Result, ok, err,
  ◌==◌,
}
use media_stream.GoMap
use media_stream.GoMap.{GoMap}
use media_stream.Core.StreamManager.{StreamManager, ManagerError, create_stream, get_stream}
use media_stream.Rtsp.Names.{strip_slash}
use media_stream.Rtsp.Sdp.{Media}
use media_stream.Rtsp.RtspPath.{
  RtspPath, ServerStream, RtspError, path_not_found, create_failed, register_publisher,
  activate_publisher, register_subscriber, get_sdp, get_server_stream,
}

pub record PathManager : Type 0 where
  pub paths : GoMap RtspPath
  pub streams : StreamManager

-- NewPathManager
unfoldable pub new_path_manager : StreamManager → PathManager
unfolding GoMap.empty
new_path_manager streams = record { paths = GoMap.empty; streams = streams }

abbrev pub new_path : String → ℕ → RtspPath
new_path id r = record {
  name = id;
  publisher = none;
  subscribers = record { entries = [] };
  stream = r;
  server_stream = none;
  medias = [];
}

unfoldable pub insert_path : PathManager → StreamManager → String → ℕ → PathManager
unfolding GoMap.put
insert_path pm m id r = record { paths = GoMap.put pm.paths id (new_path id r); streams = m }

-- GetOrCreatePath after CreateStream.
unfoldable pub path_created :
    PathManager
    → String
    → Result ManagerError (StreamManager × ℕ)
    → PathManager × Result RtspError RtspPath
unfolding insert_path
path_created pm id (err e) = (pm, err (create_failed e))
path_created pm id (ok (m, r)) = (insert_path pm m id r, ok (new_path id r))

-- GetOrCreatePath after GetStream.
unfoldable pub attached :
    PathManager → String → Result ManagerError ℕ → PathManager × Result RtspError RtspPath
unfolding insert_path path_created create_stream
attached pm id (ok r) = (insert_path pm pm.streams id r, ok (new_path id r))
attached pm id (err missing) = path_created pm id (create_stream pm.streams id id)

-- The part of GetOrCreatePath that creates.
unfoldable pub create_path : PathManager → String → PathManager × Result RtspError RtspPath
unfolding attached get_stream
create_path pm id = attached pm id (get_stream pm.streams id)

unfoldable pub get_or_create_path : PathManager → String → PathManager × Result RtspError RtspPath
unfolding create_path strip_slash GoMap.get
get_or_create_path pm name = elim (GoMap.get pm.paths (strip_slash name)) [
  | some p ↦ (pm, ok p)
  | none ↦ create_path pm (strip_slash name)
]

unfoldable pub get_path : PathManager → String → Result RtspError RtspPath
unfolding strip_slash GoMap.get
get_path pm name = elim (GoMap.get pm.paths (strip_slash name)) [
  | none ↦ err (path_not_found name)
  | some p ↦ ok p
]

-- What a method of the path at a key leaves.
unfoldable pub update :
    PathManager
    → String
    → StreamManager × RtspPath × Option RtspError
    → PathManager × Option RtspError
unfolding GoMap.put
update pm id (m, p, e) = (record { paths = GoMap.put pm.paths id p; streams = m }, e)

pub data Status : Type 0 where
  status_ok status_not_found status_bad_request : Status

unfoldable pub status_of : PathManager × Option RtspError → PathManager × Status
status_of (pm, none) = (pm, status_ok)
status_of (pm, some e) = (pm, status_bad_request)

unfoldable pub announce_at :
    PathManager × Result RtspError RtspPath → String → String → List Media → PathManager × Status
announce_at (pm, err e) id session medias = (pm, status_bad_request)
announce_at (pm, ok p) id session medias =
    status_of (update pm id (register_publisher pm.streams p session medias))

-- OnAnnounce, with PathManager.RegisterPublisher
unfoldable pub on_announce : PathManager → String → String → List Media → PathManager × Status
unfolding get_or_create_path announce_at status_of update register_publisher
on_announce pm name session medias =
    announce_at (get_or_create_path pm name) (strip_slash name) session medias

unfoldable pub recorded : PathManager → String → RtspPath × Option RtspError → PathManager × Status
recorded pm id (p, e) = status_of (update pm id (pm.streams, p, e))

-- OnRecord, with PathManager.ActivatePublisher
unfoldable pub on_record : PathManager → String → PathManager × Status
unfolding get_path recorded status_of update activate_publisher
on_record pm name = elim (get_path pm name) [
  | err e ↦ (pm, status_bad_request)
  | ok p ↦ recorded pm (strip_slash name) (activate_publisher p)
]

-- OnPlay, with PathManager.RegisterSubscriber
unfoldable pub on_play : PathManager → String → String → PathManager × Status
unfolding get_path status_of update register_subscriber
on_play pm name session = elim (get_path pm name) [
  | err e ↦ (pm, status_bad_request)
  | ok p ↦ status_of (update pm (strip_slash name) (register_subscriber pm.streams p session))
]

unfoldable pub described :
    PathManager
    → String
    → RtspPath × Result RtspError ServerStream
    → PathManager × Status × Option ServerStream
described pm id (p, ok server_stream) =
    (record pm { paths = GoMap.put pm.paths id p }, status_ok, some server_stream)
described pm id (p, err e) = (record pm { paths = GoMap.put pm.paths id p }, status_not_found, none)

unfoldable pub describe_at :
    PathManager × Result RtspError RtspPath → String → PathManager × Status × Option ServerStream
describe_at (pm, err e) id = (pm, status_not_found, none)
describe_at (pm, ok p) id = described pm id (get_sdp pm.streams p)

-- OnDescribe, with PathManager.GetStreamSDP
unfoldable pub on_describe : PathManager → String → PathManager × Status × Option ServerStream
unfolding get_or_create_path describe_at described get_sdp GoMap.put
on_describe pm name = describe_at (get_or_create_path pm name) (strip_slash name)

-- OnSetup, with PathManager.GetServerStream
unfoldable pub on_setup : PathManager → String → Status × Option ServerStream
unfolding get_path get_server_stream
on_setup pm name = elim (get_path pm name) [
  | err e ↦ (status_not_found, none)
  | ok p ↦ elim (get_server_stream p) [
    | err e ↦ (status_not_found, none)
    | ok server_stream ↦ (status_ok, some server_stream)
  ]
]

-- OnSessionClose, which only logs.
abbrev pub on_session_close : PathManager → String → PathManager
on_session_close pm session = pm
