-- ===== src/Webrtc/Peers/Answering.antt =====
-- CreateOffer and createPeerConnection of go-legacy/internal/webrtc/peer.go. What each call of
-- pion/webrtc returns is an argument.
use media_stream.Base.{
  ℕ, String, Bool, true, Option, none, some, List, str_eq, if◌then◌else◌, Result, ok, err, is_some,
  [], ◌∷◌, ◌≡◌, ◌⊎◌, ◌&&◌, ◌||◌, arith, Option-cases, inl, inr, refl,
}
use media_stream.Webrtc.Codec.{select_video_codec}
use media_stream.Webrtc.Codec.Choice.{select_video_codec_lem}
use media_stream.Webrtc.Peers.{Peer, open_connection}

-- Whether each call succeeds; `description` is LocalDescription when ICE gathering has ended or the
-- five seconds have passed, `none` where it is nil.
pub record Pion : Type 0 where
  pub connects : Bool
  pub makes_video_track : Bool
  pub adds_video_track : Bool
  pub makes_audio_track : Bool
  pub adds_audio_track : Bool
  pub takes_offer : Bool
  pub answers : Bool
  pub takes_answer : Bool
  pub description : Option String

pub data AnswerError : Type 0 where
  connection_not_created video_track_not_created video_track_not_added : AnswerError
  audio_track_not_created audio_track_not_added : AnswerError
  offer_not_set answer_not_created answer_not_set description_missing : AnswerError

-- createPeerConnection, from the audio track on.
unfoldable pub add_audio : Peer → Pion → Peer × Option AnswerError
add_audio p pion =
    if pion.makes_audio_track
    then (
      record p { has_audio_track = true },
      if pion.adds_audio_track then none else some audio_track_not_added,
    )
    else (p, some audio_track_not_created)

-- createPeerConnection, from the video track on.
unfoldable pub add_video : Peer → String → Pion → Peer × Option AnswerError
unfolding add_audio
add_video p codec pion =
    if pion.makes_video_track
    then (let tracked = record p {
      has_track = true;
      track_codec = if str_eq codec "H265" then "H265" else "H264";
    } in
        if pion.adds_video_track
        then add_audio tracked pion
        else (tracked, some video_track_not_added))
    else (p, some video_track_not_created)

unfoldable pub create_peer_connection : Peer → String → Pion → Peer × Option AnswerError
unfolding add_video
create_peer_connection p codec pion =
    if pion.connects
    then add_video (record p { connection = open_connection }) codec pion
    else (p, some connection_not_created)

-- CreateOffer once the connection is there.
unfoldable pub negotiate : Pion → Result AnswerError String
negotiate pion =
    if pion.takes_offer
    then (if pion.answers
        then (if pion.takes_answer
            then elim pion.description [ none ↦ err description_missing | some sdp ↦ ok sdp ]
            else err answer_not_set)
        else err answer_not_created)
    else err offer_not_set

unfoldable pub create_offer : Peer → List ℕ → String → Pion → Peer × Result AnswerError String
unfolding select_video_codec create_peer_connection negotiate
create_offer p offer stream_codec pion =
    let (q, failure) = create_peer_connection p (select_video_codec offer stream_codec) pion in
    (q, elim failure [ some e ↦ err e | none ↦ negotiate pion ])

-- The calls in the order of the code, with the errors of their failures.
abbrev stages : Pion → List (Bool × AnswerError)
stages pion =
    (pion.connects, connection_not_created)
    ∷ (pion.makes_video_track, video_track_not_created)
    ∷ (pion.adds_video_track, video_track_not_added)
    ∷ (pion.makes_audio_track, audio_track_not_created)
    ∷ (pion.adds_audio_track, audio_track_not_added)
    ∷ (pion.takes_offer, offer_not_set)
    ∷ (pion.answers, answer_not_created)
    ∷ (pion.takes_answer, answer_not_set)
    ∷ (is_some pion.description, description_missing)
    ∷ []

abbrev first_failed : List (Bool × AnswerError) → Option AnswerError
first_failed [] = none
first_failed ((ok?, e) ∷ rest) = if ok? then first_failed rest else some e

-- createPeerConnection comes to the audio track and can create it.
abbrev pub makes_audio : Pion → Bool
makes_audio pion =
    pion.connects && pion.makes_video_track && pion.adds_video_track && pion.makes_audio_track

-- Which tracks there are, and that only the connection and the tracks have changed.
pub record Equipped (p q : Peer) (codec : String) (pion : Pion) : Type 0 where
  pub same_id : q.id ≡ p.id
  pub same_stream : q.stream_id ≡ p.stream_id
  pub opened : q.connection ≡ (if pion.connects then open_connection else p.connection)
  pub same_close : q.close_done ≡ p.close_done
  pub same_state : q.connected ≡ p.connected
  pub video : q.has_track ≡ (pion.connects && pion.makes_video_track || p.has_track)
  pub video_codec :
      q.track_codec ≡ (if pion.connects && pion.makes_video_track then codec else p.track_codec)
  pub audio : q.has_audio_track ≡ (makes_audio pion || p.has_audio_track)
  pub same_packets : q.packets_sent ≡ p.packets_sent
  pub same_bytes : q.bytes_sent ≡ p.bytes_sent

codec-kept :
    (codec : String)
    → (codec ≡ "H264") ⊎ (codec ≡ "H265")
    → (if str_eq codec "H265" then "H265" else "H264") ≡ codec
codec-kept codec (inl e) = rw e refl
codec-kept codec (inr e) = rw e refl

create_peer_connection-Equipped :
    (p : Peer) (codec : String) (pion : Pion)
    → (codec ≡ "H264") ⊎ (codec ≡ "H265")
    → Equipped p (create_peer_connection p codec pion).0 codec pion
unfolding create_peer_connection add_video add_audio
create_peer_connection-Equipped p codec pion h = record {
  same_id = ground arith;
  same_stream = ground arith;
  opened = ground arith;
  same_close = ground arith;
  same_state = ground arith;
  video = ground arith;
  video_codec = ground (arith, codec-kept codec h);
  audio = ground arith;
  same_packets = ground arith;
  same_bytes = ground arith;
}

create_offer-answer :
    (p : Peer) (offer : List ℕ) (stream_codec : String) (pion : Pion)
    → (create_offer p offer stream_codec pion).1 ≡ elim (first_failed (stages pion)) [
      | some e ↦ err e
      | none ↦ elim pion.description [ none ↦ err description_missing | some sdp ↦ ok sdp ]
    ]
unfolding create_offer create_peer_connection add_video add_audio negotiate
create_offer-answer p offer stream_codec pion = ground (arith, Option-cases pion.description)

-- CreateOffer returns the description that the connection has in the end, or the error of the first
-- call of pion/webrtc that failed. Whatever it returns, the peer has an open connection if one could
-- be created, then a video track, if that could be created, of the codec that was selected, and then
-- an audio track, if the video track could be added and the audio track be created; nothing closes
-- the connection after a later failure. The rest of the peer stays as it was: its ids, whether it is
-- connected or closed, and its counters of packets and bytes.
pub create_offer_lem :
    (p : Peer) (offer : List ℕ) (stream_codec : String) (pion : Pion)
    → ((create_offer p offer stream_codec pion).1 ≡ elim (first_failed (stages pion)) [
      | some e ↦ err e
      | none ↦ elim pion.description [ none ↦ err description_missing | some sdp ↦ ok sdp ]
    ])
      × Equipped p
          (create_offer p offer stream_codec pion).0
          (select_video_codec offer stream_codec)
          pion
unfolding create_offer
create_offer_lem p offer stream_codec pion = (
  create_offer-answer p offer stream_codec pion,
  create_peer_connection-Equipped p (select_video_codec offer stream_codec) pion
      (select_video_codec_lem offer stream_codec).0,
)
