-- ===== src/Rtsp/PathManager/Describe.antt =====
-- DESCRIBE, and SETUP after it.
use media_stream.Base.{
  ◌≡◌, refl, String, true, some, arith, str_eq, eq_iff, eq_refl, is_some, Option-cases, Bool-cases,
  inl, inr, ok, err, Result, ◌↔◌, ◌⊎◌, get_elem?, is_ok, ◌||◌,
}
use media_stream.GoMap
use media_stream.GoMap.{GoMap, get-put}
use media_stream.Core.Stream.{Stream}
use media_stream.Core.StreamManager.{StreamManager}
use media_stream.Rtsp.Names.{strip_slash}
use media_stream.Rtsp.Sdp.{generate_sdp_from_stream}
use media_stream.Rtsp.RtspPath.{RtspPath, RtspError, ServerStream, get_sdp, get_server_stream}
use media_stream.Rtsp.PathManager.{
  PathManager, status_ok, get_or_create_path, get_path, on_describe, on_setup, described,
  describe_at,
}

get_sdp_keeps :
    (m : StreamManager) (p : RtspPath) (ss : ServerStream)
    → (get_sdp m p).1 ≡ ok ss
    → (get_sdp m p).0.server_stream ≡ some ss
unfolding get_sdp generate_sdp_from_stream
get_sdp_keeps m p ss h =
    ground (arith, Option-cases p.server_stream, Option-cases (get_elem? m.heap p.stream))

described-setup :
    (pm : PathManager) (name : String) (t : RtspPath × Result RtspError ServerStream)
    → ((ss : ServerStream) → t.1 ≡ ok ss → t.0.server_stream ≡ some ss)
    → (described pm (strip_slash name) t).1 ≡ status_ok
    → on_setup (described pm (strip_slash name) t).0 name
      ≡ (status_ok, (described pm (strip_slash name) t).2)
unfolding described on_setup get_path get_server_stream
described-setup pm name (p, ok ss) f h =
    rw
      (
        get-put pm.paths (strip_slash name) (strip_slash name) p,
        eq_refl (strip_slash name),
        on_setup,
        get_path,
        f ss refl,
      )
      refl
described-setup pm name (p, err e) f h = absurd (ground arith)

describe_at-setup :
    (t : PathManager × Result RtspError RtspPath) (name : String)
    → (describe_at t (strip_slash name)).1 ≡ status_ok
    → on_setup (describe_at t (strip_slash name)).0 name
      ≡ (status_ok, (describe_at t (strip_slash name)).2)
unfolding describe_at
describe_at-setup (pm, err e) name h = absurd (ground arith)
describe_at-setup (pm, ok p) name h =
    described-setup pm name (get_sdp pm.streams p) (get_sdp_keeps pm.streams p) h

-- After a DESCRIBE that is answered OK, SETUP of the same path is answered OK with the stream that
-- DESCRIBE returned.
describe_then_setup :
    (pm : PathManager) (name : String)
    → (on_describe pm name).1 ≡ status_ok
    → on_setup (on_describe pm name).0 name ≡ (status_ok, (on_describe pm name).2)
unfolding on_describe
describe_then_setup pm name h = describe_at-setup (get_or_create_path pm name) name h

generate_sdp_from_stream-is_ok :
    (s : Stream)
    → is_ok (generate_sdp_from_stream s)
      ≡ (str_eq s.video_codec "H264" || str_eq s.video_codec "H265")
unfolding generate_sdp_from_stream
generate_sdp_from_stream-is_ok s = elim (Bool-cases (str_eq s.video_codec "")) [
  | inl q ↦ rw ((eq_iff s.video_codec "").0 q, generate_sdp_from_stream) refl
  | inr q ↦ ground (arith, q)
]

get_sdp-is_ok :
    (m : StreamManager) (p : RtspPath) (s : Stream)
    → get_elem? m.heap p.stream ≡ some s
    → is_ok (get_sdp m p).1
      ≡ (is_some p.server_stream || (str_eq s.video_codec "H264" || str_eq s.video_codec "H265"))
unfolding get_sdp
get_sdp-is_ok m p s at =
    ground (arith, Option-cases p.server_stream, generate_sdp_from_stream-is_ok s)

described-ok :
    (pm : PathManager) (k : String) (t : RtspPath × Result RtspError ServerStream)
    → ((described pm k t).1 ≡ status_ok) ↔ (is_ok t.1 ≡ true)
unfolding described
described-ok pm k (p, ok ss) = (λ h. refl, λ h. refl)
described-ok pm k (p, err e) = (λ h. ground arith, λ h. ground arith)

-- DESCRIBE of a path that exists is answered OK exactly if the path has been described before or
-- its stream's codec is H264 or H265.
on_describe-ok :
    (pm : PathManager) (name : String) (p : RtspPath) (s : Stream)
    → GoMap.get pm.paths (strip_slash name) ≡ some p
    → get_elem? pm.streams.heap p.stream ≡ some s
    → ((on_describe pm name).1 ≡ status_ok)
      ↔ ((is_some p.server_stream ≡ true) ⊎ (s.video_codec ≡ "H264") ⊎ (s.video_codec ≡ "H265"))
unfolding on_describe describe_at get_or_create_path
on_describe-ok pm name p s e at =
    let sdp = get_sdp-is_ok pm.streams p s at in
    let status = described-ok pm (strip_slash name) (get_sdp pm.streams p) in
    rw (e, on_describe, describe_at, get_or_create_path)
      (ground (arith, eq_iff s.video_codec "H264", eq_iff s.video_codec "H265"))
