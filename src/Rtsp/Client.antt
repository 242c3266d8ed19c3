-- ===== src/Rtsp/Client.antt =====
-- go-legacy/internal/rtsp/client.go: the client that reads a camera, with its retries. What
-- gortsplib and the network do in an attempt is an argument. Durations are in nanoseconds.
pub mod Retry
pub mod Tests
use media_stream.Base.{
  ℕ, zero, suc, ◌+◌, String, Bool, true, false, Option, none, some, List, [], ◌∷◌, ◌++◌, ◌&&◌, ◌||◌,
  not, leb, str_eq, if◌then◌else◌, length, map, Result, ok, err,
}
use media_stream.Base.Int.{ℤ, pos, pos_part, eq_ℤ, leb_ℤ, ltb_ℤ}
use media_stream.Core.Stream.{Packet, add64}

pub record ClientConfig : Type 0 where
  pub url : String
  pub transport : String
  pub timeout : ℤ
  pub retry_count : ℤ
  pub retry_delay : ℤ

-- `stream` is the pointer of the stream that gets the codec and the packets; `ctx_done` says that
-- the context was cancelled.
pub record Client : Type 0 where
  pub url : String
  pub transport : String
  pub timeout : ℤ
  pub retry_count : ℤ
  pub retry_delay : ℤ
  pub stream : ℕ
  pub ctx_done : Bool
  pub connected : Bool
  pub packets_received : ℕ
  pub bytes_received : ℕ

pub data ClientError : Type 0 where
  invalid_url : ClientError

abbrev or_default : ℤ → ℤ → ℤ
or_default n d = if eq_ℤ n (pos 0) then d else n

-- NewClient; `url_ok` says whether url.Parse takes the URL.
unfoldable pub new_client : ClientConfig → ℕ → Bool → Result ClientError Client
new_client c stream url_ok =
    if url_ok
    then ok (record {
      url = c.url;
      transport = if str_eq c.transport "" then "tcp" else c.transport;
      timeout = or_default c.timeout (pos 10_000_000_000);
      retry_count = or_default c.retry_count (pos 3);
      retry_delay = or_default c.retry_delay (pos 5_000_000_000);
      stream = stream;
      ctx_done = false;
      connected = false;
      packets_received = 0;
      bytes_received = 0;
    })
    else err invalid_url

-- Stop; the connection that it closes is gortsplib's.
unfoldable pub stop_client : Client → Client
stop_client c = record c { ctx_done = true }

-- handleRTPPacket, but for the callback.
unfoldable pub handle_rtp_packet : Client → Packet → Client
handle_rtp_packet c p = record c {
  packets_received = add64 c.packets_received 1;
  bytes_received = add64 c.bytes_received (length p.payload);
}

unfoldable pub handle_rtp_packets : Client → List Packet → Client
unfolding handle_rtp_packet
handle_rtp_packets c [] = c
handle_rtp_packets c (p ∷ ps) = handle_rtp_packets (handle_rtp_packet c p) ps

-- What one call of run meets: how each request ends, the codecs of the formats of each media, the
-- packets until the connection ends and how Wait returns; and when the context is found cancelled.
pub record Attempt : Type 0 where
  pub cancelled_before : Bool
  pub url_parsed : Bool
  pub connects : Bool
  pub base_url_parsed : Bool
  pub described : Option (List (List String))
  pub set_up : Bool
  pub plays : Bool
  pub packets : List Packet
  pub wait_failed : Bool
  pub cancelled_after : Bool
  pub cancelled_waiting : Bool

-- What the client does to the outside, in order.
pub data Effect : Type 0 where
  sets_codec : String → Effect
  on_connect on_disconnect : Effect
  on_packet : Packet → Effect

pub data RunError : Type 0 where
  url_failed connect_failed base_url_failed describe_failed setup_failed play_failed : RunError
  wait_ended : RunError

-- The loop over the medias: the codec of the first format of the first media.
unfoldable pub codec_effects : List (List String) → List Effect
codec_effects [] = []
codec_effects ([] ∷ medias) = []
codec_effects ((codec ∷ formats) ∷ medias) =
    if str_eq codec "H264" || str_eq codec "H265" then sets_codec codec ∷ [] else []

-- run from PLAY on.
unfoldable pub play : Client → Attempt → List Effect → Client × List Effect × Option RunError
unfolding handle_rtp_packets
play c a done =
    if a.plays
    then (
      handle_rtp_packets (record c { connected = true }) a.packets,
      done ++ (on_connect ∷ map on_packet a.packets),
      if a.wait_failed then some wait_ended else none,
    )
    else (c, done, some play_failed)

-- run from DESCRIBE on.
unfoldable pub describe : Client → Attempt → Client × List Effect × Option RunError
unfolding codec_effects play
describe c a = elim a.described [
  | none ↦ (c, [], some describe_failed)
  | some medias ↦
      if a.set_up
      then play c a (codec_effects medias)
      else (c, codec_effects medias, some setup_failed)
]

unfoldable pub run : Client → Attempt → Client × List Effect × Option RunError
unfolding describe
run c a =
    if not a.url_parsed
    then (c, [], some url_failed)
    else if not a.connects
    then (c, [], some connect_failed)
    else if not a.base_url_parsed
    then (c, [], some base_url_failed)
    else describe c a

pub data Ending : Type 0 where
  cancelled finished gave_up : Ending

pub record Runs : Type 0 where
  pub client : Client
  pub effects : List Effect
  pub attempts : ℕ
  pub ending : Ending

-- One round of the loop of runWithRetry: it returns, or it goes on with the client and the effects
-- so far.
pub data Round : Type 0 where
  ends : Runs → Round
  again : Client → List Effect → Round

-- The end of a round whose attempt has failed.
unfoldable pub after_failure : Attempt → ℕ → Client → List Effect → Round
after_failure a attempts c effects =
    if ltb_ℤ (pos 0) c.retry_count && leb_ℤ c.retry_count (pos attempts)
    then ends (record { client = c; effects = effects; attempts = attempts; ending = gave_up })
    else if a.cancelled_waiting
    then ends (record { client = c; effects = effects; attempts = attempts; ending = cancelled })
    else again c effects

-- A round from the call of run on, after `attempt` attempts and the effects `done`.
unfoldable pub attempt_round :
    Attempt → ℕ → List Effect → Client × List Effect × Option RunError → Round
unfolding after_failure
attempt_round a attempt done (c, effects, none) =
    ends
      (record { client = c; effects = done ++ effects; attempts = attempt + 1; ending = finished })
attempt_round a attempt done (c, effects, some e) =
    if a.cancelled_after
    then ends (record {
      client = c;
      effects = done ++ effects;
      attempts = attempt + 1;
      ending = cancelled;
    })
    else after_failure a (attempt + 1) (record c { connected = false })
        (done ++ effects ++ on_disconnect ∷ [])

unfoldable pub round : Attempt → ℕ → Client → List Effect → Round
unfolding attempt_round run
round a attempt c done =
    if a.cancelled_before
    then ends (record { client = c; effects = done; attempts = attempt; ending = cancelled })
    else attempt_round a attempt done (run c a)

-- What the loop makes of a round.
unfoldable pub next_round : Round → (Client → List Effect → Option Runs) → Option Runs
next_round (ends r) go = some r
next_round (again c done) go = go c done

-- runWithRetry after `attempt` attempts, with fuel for its loop; the attempt of number n meets
-- `env n`. `none` means that the fuel ran out.
unfoldable pub retry : ℕ → (ℕ → Attempt) → ℕ → Client → List Effect → Option Runs
unfolding round next_round
retry zero env attempt c done = none
retry (suc fuel) env attempt c done =
    next_round (round (env attempt) attempt c done)
      (λ c' done'. retry fuel env (attempt + 1) c' done')
