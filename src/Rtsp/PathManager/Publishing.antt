-- ===== src/Rtsp/PathManager/Publishing.antt =====
-- A path's publisher through any history of requests: no code takes it away when its session ends.
use media_stream.Base.{
  ◌≡◌, refl, String, true, Option, none, some, List, [], ◌∷◌, arith, eq_refl, is_some, Option-cases,
  inl, inr, ok, err, Result,
}
use media_stream.GoMap
use media_stream.GoMap.{GoMap, get-put}
use media_stream.Core.StreamManager.{StreamManager}
use media_stream.Rtsp.Names.{strip_slash}
use media_stream.Rtsp.Sdp.{Media, parse_codec_info}
use media_stream.Rtsp.RtspPath.{
  RtspPath, RtspError, ServerStream, register_publisher, new_publisher, activate_publisher,
  register_subscriber, get_sdp,
}
use media_stream.Rtsp.PathManager.{
  PathManager, status_ok, status_bad_request, get_or_create_path, get_path, on_describe,
  on_announce, on_play, on_record, on_session_close, update, announce_at, status_of, recorded,
  described, describe_at,
}
use media_stream.Rtsp.PathManager.Published.{
  published, Located, published-put, register_publisher-keeps, activate_publisher-keeps,
  register_subscriber-publisher, get_sdp-publisher, get_or_create_path-Located,
  get_or_create_path-keeps,
}

-- What happens to the paths: the requests of clients, ends of sessions, and whatever the rest of
-- the server does to the streams.
pub data Request : Type 0 where
  describes setups records closes : String → Request
  announces : String → String → List Media → Request
  plays : String → String → Request
  streams_change : StreamManager → Request

unfoldable pub serve_one : PathManager → Request → PathManager
serve_one pm (describes name) = (on_describe pm name).0
serve_one pm (setups name) = pm
serve_one pm (records name) = (on_record pm name).0
serve_one pm (closes session) = on_session_close pm session
serve_one pm (announces name session medias) = (on_announce pm name session medias).0
serve_one pm (plays name session) = (on_play pm name session).0
serve_one pm (streams_change m) = record pm { streams = m }

unfoldable pub serve : PathManager → List Request → PathManager
unfolding serve_one
serve pm [] = pm
serve pm (r ∷ rs) = serve (serve_one pm r) rs

status_of-first : (t : PathManager × Option RtspError) → (status_of t).0 ≡ t.0
unfolding status_of
status_of-first (pm, none) = refl
status_of-first (pm, some e) = refl

-- A method of a path that leaves its publisher in place.
update-keeps :
    (pm : PathManager) (k id : String) (p : RtspPath)
    (t : StreamManager × RtspPath × Option RtspError)
    → GoMap.get pm.paths k ≡ some p
    → (is_some p.publisher ≡ true → is_some t.1.publisher ≡ true)
    → published pm id ≡ true
    → published (status_of (update pm k t)).0 id ≡ true
unfolding update
update-keeps pm k id p (m, q, e) at f h =
    rw (status_of-first (update pm k (m, q, e)))
      (published-put pm m k id q (λ p' e' h'. f (ground arith)) h)

announce_at-keeps :
    (t : PathManager × Result RtspError RtspPath) (k id session : String) (medias : List Media)
    → Located k t
    → published t.0 id ≡ true
    → published (announce_at t k session medias).0 id ≡ true
unfolding announce_at
announce_at-keeps (pm, err e) k id session medias l h = h
announce_at-keeps (pm, ok p) k id session medias l h =
    update-keeps pm k id p (register_publisher pm.streams p session medias) (l p refl)
      (register_publisher-keeps pm.streams p session medias) h

recorded-keeps :
    (pm : PathManager) (k id : String) (p : RtspPath) (t : RtspPath × Option RtspError)
    → GoMap.get pm.paths k ≡ some p
    → (is_some p.publisher ≡ true → is_some t.0.publisher ≡ true)
    → published pm id ≡ true
    → published (recorded pm k t).0 id ≡ true
unfolding recorded
recorded-keeps pm k id p (q, e) at f h = update-keeps pm k id p (pm.streams, q, e) at f h

described-keeps :
    (pm : PathManager) (k id : String) (p : RtspPath) (t : RtspPath × Result RtspError ServerStream)
    → GoMap.get pm.paths k ≡ some p
    → (is_some p.publisher ≡ true → is_some t.0.publisher ≡ true)
    → published pm id ≡ true
    → published (described pm k t).0 id ≡ true
unfolding described
described-keeps pm k id p (q, ok ss) at f h =
    published-put pm pm.streams k id q (λ p' e' h'. f (ground arith)) h
described-keeps pm k id p (q, err e) at f h =
    published-put pm pm.streams k id q (λ p' e' h'. f (ground arith)) h

describe_at-keeps :
    (t : PathManager × Result RtspError RtspPath) (k id : String)
    → Located k t
    → published t.0 id ≡ true
    → published (describe_at t k).0 id ≡ true
unfolding describe_at
describe_at-keeps (pm, err e) k id l h = h
describe_at-keeps (pm, ok p) k id l h =
    described-keeps pm k id p (get_sdp pm.streams p) (l p refl)
      (λ q. rw (get_sdp-publisher pm.streams p) q) h

on_record-keeps :
    (pm : PathManager) (name id : String)
    → published pm id ≡ true
    → published (on_record pm name).0 id ≡ true
unfolding on_record get_path
on_record-keeps pm name id h = elim (Option-cases (GoMap.get pm.paths (strip_slash name))) [
  | inl e ↦ rw (e, on_record, get_path) h
  | inr (p, e) ↦
      rw (e, on_record, get_path)
        (recorded-keeps pm (strip_slash name) id p (activate_publisher p) e
          (activate_publisher-keeps p) h)
]

on_play-keeps :
    (pm : PathManager) (name session id : String)
    → published pm id ≡ true
    → published (on_play pm name session).0 id ≡ true
unfolding on_play get_path
on_play-keeps pm name session id h = elim (Option-cases (GoMap.get pm.paths (strip_slash name))) [
  | inl e ↦ rw (e, on_play, get_path) h
  | inr (p, e) ↦
      rw (e, on_play, get_path)
        (update-keeps pm (strip_slash name) id p (register_subscriber pm.streams p session) e
          (λ q. rw (register_subscriber-publisher pm.streams p session) q) h)
]

serve_one-keeps :
    (pm : PathManager) (r : Request) (id : String)
    → published pm id ≡ true
    → published (serve_one pm r) id ≡ true
unfolding serve_one
serve_one-keeps pm (describes name) id h =
    unfold on_describe in
    describe_at-keeps (get_or_create_path pm name) (strip_slash name) id
      (get_or_create_path-Located pm name) (get_or_create_path-keeps pm name id h)
serve_one-keeps pm (setups name) id h = h
serve_one-keeps pm (records name) id h = on_record-keeps pm name id h
serve_one-keeps pm (closes session) id h = h
serve_one-keeps pm (announces name session medias) id h =
    unfold on_announce in
    announce_at-keeps (get_or_create_path pm name) (strip_slash name) id session medias
      (get_or_create_path-Located pm name) (get_or_create_path-keeps pm name id h)
serve_one-keeps pm (plays name session) id h = on_play-keeps pm name session id h
serve_one-keeps pm (streams_change m) id h = h

serve-keeps :
    (pm : PathManager) (rs : List Request) (id : String)
    → published pm id ≡ true
    → published (serve pm rs) id ≡ true
unfolding serve
serve-keeps pm [] id h = h
serve-keeps pm (r ∷ rs) id h = serve-keeps (serve_one pm r) rs id (serve_one-keeps pm r id h)

-- A path that has a publisher refuses another.
published-refuses :
    (pm : PathManager) (name session : String) (medias : List Media)
    → published pm (strip_slash name) ≡ true
    → (on_announce pm name session medias).1 ≡ status_bad_request
unfolding on_announce get_or_create_path announce_at register_publisher update status_of
published-refuses pm name session medias h =
    elim (Option-cases (GoMap.get pm.paths (strip_slash name))) [
      | inl e ↦ absurd (ground arith)
      | inr (p, e) ↦ elim (Option-cases p.publisher) [
        | inl none_there ↦ absurd (ground arith)
        | inr (q, there) ↦
            rw (e, on_announce, get_or_create_path, announce_at, there, register_publisher) refl
      ]
    ]

register_publisher-accepted :
    (m : StreamManager) (p : RtspPath) (session : String) (medias : List Media)
    → (register_publisher m p session medias).2 ≡ none
    → is_some (register_publisher m p session medias).1.publisher ≡ true
unfolding register_publisher new_publisher
register_publisher-accepted m p session medias h =
    ground (arith, Option-cases p.publisher, Option-cases (parse_codec_info medias))

update_ok-published :
    (pm : PathManager) (k : String) (t : StreamManager × RtspPath × Option RtspError)
    → (t.2 ≡ none → is_some t.1.publisher ≡ true)
    → (status_of (update pm k t)).1 ≡ status_ok
    → published (status_of (update pm k t)).0 k ≡ true
unfolding update status_of
update_ok-published pm k (m, q, none) f h = rw (get-put pm.paths k k q, eq_refl k) (f refl)
update_ok-published pm k (m, q, some e) f h = absurd (ground arith)

announced-published :
    (t : PathManager × Result RtspError RtspPath) (k session : String) (medias : List Media)
    → (announce_at t k session medias).1 ≡ status_ok
    → published (announce_at t k session medias).0 k ≡ true
unfolding announce_at
announced-published (pm, err e) k session medias h = absurd (ground arith)
announced-published (pm, ok p) k session medias h =
    update_ok-published pm k (register_publisher pm.streams p session medias)
      (register_publisher-accepted pm.streams p session medias) h

-- Once an ANNOUNCE has been answered OK, every later ANNOUNCE for the same path, with or without
-- the leading slash, is answered 400: whatever requests come in between, whatever happens to the
-- streams, and though the publisher's session has ended.
pub announced_once :
    (pm : PathManager) (name name' session session' : String) (medias medias' : List Media)
    (rs : List Request)
    → (on_announce pm name session medias).1 ≡ status_ok
    → strip_slash name' ≡ strip_slash name
    → (on_announce (serve (on_announce pm name session medias).0 rs) name' session' medias').1
      ≡ status_bad_request
announced_once pm name name' session session' medias medias' rs h same =
    published-refuses (serve _ rs) name' session' medias' (
      rw same (
        serve-keeps _ rs (strip_slash name) (
          unfold on_announce in
          announced-published (get_or_create_path pm name) (strip_slash name) session medias h)))
