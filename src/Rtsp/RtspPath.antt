-- ===== src/Rtsp/RtspPath.antt =====
-- `Path` of go-legacy/internal/rtsp/path_manager.go with publisher.go and subscriber.go. A path, a
-- publisher and a subscriber point to a stream of the stream manager's heap. A session is known by
-- the text of its pointer, which is its id.
use media_stream.Base.{
  ℕ, String, Bool, true, false, Option, none, some, List, [], ◌∷◌, if◌then◌else◌, get_elem?, set,
  map_some, Result, ok, err,
}
use media_stream.GoMap
use media_stream.GoMap.{GoMap}
use media_stream.Core.Stream.{
  Stream, Packet, Error, Write, write_packet, subscribe, unsubscribe, set_video_codec,
}
use media_stream.Core.StreamManager.{StreamManager, ManagerError}
use media_stream.Rtsp.Sdp.{Media, SdpError, generate_sdp_from_stream, parse_codec_info}

-- gortsplib.ServerStream: the description that NewServerStream was given.
pub record ServerStream : Type 0 where
  pub description : List Media

pub record Publisher : Type 0 where
  pub path : String
  pub session : String
  pub stream : ℕ
  pub medias : List Media
  pub active : Bool

pub record Subscriber : Type 0 where
  pub path : String
  pub session : String
  pub stream : ℕ
  pub server_stream : ServerStream
  pub media : Option Media
  pub subscriber_id : String
  pub active : Bool

pub record RtspPath : Type 0 where
  pub name : String
  pub publisher : Option Publisher
  pub subscribers : GoMap Subscriber
  pub stream : ℕ
  pub server_stream : Option ServerStream
  pub medias : List Media

pub data RtspError : Type 0 where
  path_not_found : String → RtspError
  publisher_exists no_supported_codec no_publisher publisher_active : RtspError
  already_subscribed no_server_stream subscriber_active subscriber_not_active : RtspError
  not_initialized write_failed : RtspError
  subscribe_failed : Error → RtspError
  sdp_failed : SdpError → RtspError
  create_failed : ManagerError → RtspError

-- p.stream.f(); a pointer always leads to a stream.
unfoldable pub with_stream_at : StreamManager → ℕ → (Stream → Stream) → StreamManager
with_stream_at m r f = elim (get_elem? m.heap r) [
  | none ↦ m
  | some s ↦ record m { heap = set m.heap r (f s) }
]

-- NewPublisher: the codec of the SDP is set on the stream.
unfoldable pub new_publisher :
    StreamManager → RtspPath → String → List Media → Result RtspError (StreamManager × Publisher)
unfolding with_stream_at parse_codec_info set_video_codec
new_publisher m p session medias = elim (parse_codec_info medias) [
  | none ↦ err no_supported_codec
  | some codec ↦ ok (
    with_stream_at m p.stream (λ s. set_video_codec s codec),
    record { path = p.name; session = session; stream = p.stream; medias = medias; active = false },
  )
]

-- Path.RegisterPublisher
unfoldable pub register_publisher :
    StreamManager → RtspPath → String → List Media → StreamManager × RtspPath × Option RtspError
unfolding new_publisher
register_publisher m p session medias = elim p.publisher [
  | some q ↦ (m, p, some publisher_exists)
  | none ↦ elim (new_publisher m p session medias) [
    | err e ↦ (m, p, some e)
    | ok (m', q) ↦ (m', record p { publisher = some q }, none)
  ]
]

-- Publisher.Activate
unfoldable pub activate : Publisher → Result RtspError Publisher
activate q = if q.active then err publisher_active else ok (record q { active = true })

-- Path.ActivatePublisher
unfoldable pub activate_publisher : RtspPath → RtspPath × Option RtspError
unfolding activate
activate_publisher p = elim p.publisher [
  | none ↦ (p, some no_publisher)
  | some q ↦ elim (activate q) [
    | err e ↦ (p, some e)
    | ok q' ↦ (record p { publisher = some q' }, none)
  ]
]

-- The callback of Publisher.Activate and handlePacket; errors are logged.
unfoldable pub handle_packet : StreamManager → Publisher → Packet → Option Write
unfolding write_packet
handle_packet m q pkt = map_some (λ s. write_packet s pkt) (get_elem? m.heap q.stream)

first_media : List Media → Option Media
first_media [] = none
first_media (media ∷ medias) = some media

-- NewSubscriber with the configuration of Path.RegisterSubscriber.
unfoldable pub new_subscriber : RtspPath → String → ServerStream → Subscriber
unfolding first_media
new_subscriber p session server_stream = record {
  path = p.name;
  session = session;
  stream = p.stream;
  server_stream = server_stream;
  media = first_media p.medias;
  subscriber_id = session;
  active = false;
}

-- Subscriber.Activate
unfoldable pub activate_subscriber :
    StreamManager → Subscriber → StreamManager × Subscriber × Option RtspError
unfolding subscribe
activate_subscriber m u =
    if u.active then (m, u, some subscriber_active) else elim (get_elem? m.heap u.stream) [
      | none ↦ (m, u, none)
      | some s ↦ elim (subscribe s u.subscriber_id) [
        | err e ↦ (m, u, some (subscribe_failed e))
        | ok s' ↦ (record m { heap = set m.heap u.stream s' }, record u { active = true }, none)
      ]
    ]

-- The end of Path.RegisterSubscriber; a subscriber that cannot be activated is deleted again.
unfoldable pub activated :
    RtspPath
    → String
    → StreamManager × Subscriber × Option RtspError
    → StreamManager × RtspPath × Option RtspError
activated p session (m, u, none) =
    (m, record p { subscribers = GoMap.put p.subscribers session u }, none)
activated p session (m, u, some e) =
    (m, record p { subscribers = GoMap.remove (GoMap.put p.subscribers session u) session }, some e)

-- Path.RegisterSubscriber after its guards.
unfoldable pub add_subscriber :
    StreamManager → RtspPath → String → ServerStream → StreamManager × RtspPath × Option RtspError
unfolding new_subscriber activate_subscriber activated GoMap.put GoMap.remove
add_subscriber m p session server_stream =
    activated p session (activate_subscriber m (new_subscriber p session server_stream))

-- Path.RegisterSubscriber
unfoldable pub register_subscriber :
    StreamManager → RtspPath → String → StreamManager × RtspPath × Option RtspError
unfolding add_subscriber GoMap.get
register_subscriber m p session =
    if GoMap.contains p.subscribers session
    then (m, p, some already_subscribed)
    else elim p.server_stream [
      | none ↦ (m, p, some no_server_stream)
      | some server_stream ↦ add_subscriber m p session server_stream
    ]

-- Subscriber.OnPacket and WritePacket; `written` says whether the session took the packet.
unfoldable pub on_packet : Subscriber → Bool → Option RtspError
on_packet u written =
    if u.active then (if written then none else some write_failed) else some subscriber_not_active

-- Path.GetSDP. gortsplib's NewServerStream, called with no server, is taken to return a stream.
unfoldable pub get_sdp : StreamManager → RtspPath → RtspPath × Result RtspError ServerStream
unfolding generate_sdp_from_stream
get_sdp m p = elim p.server_stream [
  | some server_stream ↦ (p, ok server_stream)
  | none ↦ elim (get_elem? m.heap p.stream) [
    | none ↦ (p, err not_initialized)
    | some s ↦ elim (generate_sdp_from_stream s) [
      | err e ↦ (p, err (sdp_failed e))
      | ok medias ↦
          (let server_stream : ServerStream = record { description = medias } in
            (record p { server_stream = some server_stream; medias = medias }, ok server_stream))
    ]
  ]
]

-- Path.GetServerStream
unfoldable pub get_server_stream : RtspPath → Result RtspError ServerStream
get_server_stream p = elim p.server_stream [
  | none ↦ err not_initialized
  | some server_stream ↦ ok server_stream
]

-- Subscriber.Close; an error of Unsubscribe is logged.
unfoldable pub close_subscriber : StreamManager → Subscriber → StreamManager × Subscriber
unfolding unsubscribe
close_subscriber m u =
    if u.active
    then elim (get_elem? m.heap u.stream) [
      | none ↦ (m, u)
      | some s ↦ elim (unsubscribe s u.subscriber_id) [
        | err e ↦ (m, record u { active = false })
        | ok s' ↦ (record m { heap = set m.heap u.stream s' }, record u { active = false })
      ]
    ]
    else (m, u)

-- Path.RemoveSubscriber
unfoldable pub remove_subscriber : StreamManager → RtspPath → String → StreamManager × RtspPath
unfolding close_subscriber GoMap.get GoMap.remove
remove_subscriber m p session = elim (GoMap.get p.subscribers session) [
  | none ↦ (m, p)
  | some u ↦
      ((close_subscriber m u).0, record p { subscribers = GoMap.remove p.subscribers session })
]

-- Path.RemovePublisher
unfoldable pub remove_publisher : RtspPath → RtspPath
remove_publisher p = record p { publisher = none }
