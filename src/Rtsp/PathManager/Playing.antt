-- ===== src/Rtsp/PathManager/Playing.antt =====
-- PLAY, and paths whose stream was removed.
use media_stream.Base.{
  ℕ, ◌≡◌, refl, String, true, false, some, arith, eq_refl, is_some, Option-cases, Bool-cases, inl,
  inr, ok, err, ◌∙◌, ◌↔◌, get_elem?,
}
use media_stream.GoMap
use media_stream.GoMap.{GoMap, get-put}
use media_stream.Core.Stream.{Stream, Packet, rejected, stream_closed, subscribe}
use media_stream.Core.StreamManager.{StreamManager, get_stream, remove_stream, stream_not_found}
use media_stream.Core.StreamManager.Laws.{IsValid, remove_stream-shut}
use media_stream.Rtsp.Names.{strip_slash}
use media_stream.Rtsp.RtspPath.{
  RtspPath, Publisher, handle_packet, register_subscriber, add_subscriber, activate_subscriber,
  new_subscriber, activated,
}
use media_stream.Rtsp.PathManager.{
  PathManager, status_ok, get_or_create_path, get_path, on_play, update, status_of,
}

-- PLAY of a path that exists is answered OK exactly if the session does not play the path yet, the
-- path has been described, and its stream has no subscriber of that id.
on_play-ok :
    (pm : PathManager) (name session : String) (p : RtspPath) (s : Stream)
    → GoMap.get pm.paths (strip_slash name) ≡ some p
    → get_elem? pm.streams.heap p.stream ≡ some s
    → ((on_play pm name session).1 ≡ status_ok) ↔ (
        (GoMap.contains p.subscribers session ≡ false)
        × (is_some p.server_stream ≡ true)
        × (GoMap.contains s.subscribers session ≡ false))
unfolding on_play get_path register_subscriber add_subscriber activate_subscriber new_subscriber
    activated update status_of subscribe
on_play-ok pm name session p s e at = elim (Bool-cases (GoMap.contains p.subscribers session)) [
  | inl h ↦ rw (e, on_play, get_path, h, register_subscriber) (ground arith)
  | inr h ↦ elim (Option-cases p.server_stream) [
    | inl none_there ↦ rw (e, on_play, get_path, h, none_there, register_subscriber) (ground arith)
    | inr (ss, there) ↦ elim (Bool-cases (GoMap.contains s.subscribers session)) [
      | inl k ↦
          rw
            (
              e, on_play, get_path, h, there, register_subscriber, add_subscriber,
              activate_subscriber, at, k, subscribe,
            )
            (ground arith)
      | inr k ↦
          rw
            (
              e, on_play, get_path, h, there, register_subscriber, add_subscriber,
              activate_subscriber, at, k, subscribe,
            )
            (ground arith)
    ]
  ]
]

-- When the stream of a path is removed from the stream manager, the path keeps it: the manager no
-- longer has the id, yet GetOrCreatePath returns the old path and creates nothing, and each packet
-- of its publisher is rejected because the stream is closed.
pub path_keeps_closed_stream :
    (pm : PathManager) (name : String) (p : RtspPath) (q : Publisher) (r : ℕ)
    → IsValid pm.streams
    → GoMap.get pm.paths (strip_slash name) ≡ some p
    → p.publisher ≡ some q
    → q.stream ≡ r
    → GoMap.get pm.streams.streams (strip_slash name) ≡ some r
    → (m : StreamManager) × (s : Stream) × (remove_stream pm.streams (strip_slash name)
        ≡ some (ok m))
      × (get_stream m (strip_slash name) ≡ err (stream_not_found (strip_slash name)))
      × (get_or_create_path (record pm { streams = m }) name ≡ (record pm { streams = m }, ok p))
      × ((pkt : Packet) → handle_packet m q pkt ≡ some (rejected stream_closed s))
unfolding get_or_create_path handle_packet
path_keeps_closed_stream pm name p q r v e has at there =
    let (m, s, removed, _, gets, shut_at, rejects, _) =
      remove_stream-shut pm.streams (strip_slash name) r v there in
    (
      m,
      s,
      removed,
      gets (strip_slash name) ∙ rw (eq_refl (strip_slash name)) refl,
      rw (e, get_or_create_path) refl,
      λ pkt. rw (at, shut_at, rejects pkt) refl,
    )
