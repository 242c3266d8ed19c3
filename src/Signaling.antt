-- ===== src/Signaling.antt =====
-- go-legacy/internal/signaling/server.go. Clients are shared by the server's map, their two pumps
-- and the goroutines of their offers, so they live on a heap. The bytes of JSON and the connection
-- (gorilla/websocket) are left out: how a read, a write and a parse end are arguments.
pub mod History
pub mod Closing
pub mod Tests
use media_stream.Base.{
  ℕ, ◌+◌, String, Bool, true, false, Option, none, some, List, [], ◌∷◌, ◌++◌, ◌==◌, ◌||◌, str_eq,
  if◌then◌else◌, length, get_elem?, set, Result, ok, err,
}
use media_stream.Core.Channel.{
  Chan, make, close, Send, sent, full, panicked, try_send, Recv, received, drained, waiting,
  try_recv,
}

-- What goes to a browser: the SDP or the text, and the stream id.
pub data Reply : Type 0 where
  answer error : String → String → Reply

-- `writing` says that writePump runs, `sent_replies` what it has written, `close_calls` how often
-- onClose was called for the client.
pub record SignalClient : Type 0 where
  pub id : String
  pub send : Chan Reply
  pub writing : Bool
  pub conn_closed : Bool
  pub sent_replies : List Reply
  pub close_calls : ℕ

-- `clients` is the map's set of keys.
pub record SignalServer : Type 0 where
  pub heap : List SignalClient
  pub clients : List ℕ

pub record OfferPayload : Type 0 where
  pub sdp : String
  pub payload_stream_id : String

-- A message as json.Unmarshal leaves it: its type and stream id, and its payload read as an offer.
pub data Incoming : Type 0 where
  not_json : Incoming
  message : String → String → Option OfferPayload → Incoming

-- The arguments of handleOffer.
pub record OfferJob : Type 0 where
  pub offer : String
  pub stream_id : String
  pub message_stream_id : String

-- NewServer
abbrev pub new_signal_server : SignalServer
new_signal_server = record { heap = []; clients = [] }

abbrev pub send_cap : ℕ
send_cap = 256

abbrev pub new_signal_client : String → SignalClient
new_signal_client id = record {
  id = id;
  send = make send_cap;
  writing = true;
  conn_closed = false;
  sent_replies = [];
  close_calls = 0;
}

abbrev pub registered : ℕ → List ℕ → Bool
registered r [] = false
registered r (i ∷ clients) = (i == r) || registered r clients

abbrev pub without_key : ℕ → List ℕ → List ℕ
without_key r [] = []
without_key r (i ∷ clients) = let rest = without_key r clients in if i == r then rest else i ∷ rest

-- HandleWebSocket after the upgrade, with registerClient.
unfoldable pub connect : SignalServer → String → SignalServer
connect s id = record {
  heap = s.heap ++ new_signal_client id ∷ [];
  clients = length s.heap ∷ s.clients;
}

abbrev pub at_client : SignalServer → ℕ → (SignalClient → SignalClient) → SignalServer
at_client s r f = elim (get_elem? s.heap r) [
  | none ↦ s
  | some c ↦ record s { heap = set s.heap r (f c) }
]

-- What unregisterClient does to the client.
abbrev pub retired : SignalClient → SignalClient
retired c = record c { send = close c.send; close_calls = c.close_calls + 1 }

unfoldable pub unregister_client : SignalServer → ℕ → SignalServer
unregister_client s r =
    if registered r s.clients
    then at_client (record s { clients = without_key r s.clients }) r retired
    else s

abbrev pub hang_up : SignalClient → SignalClient
hang_up c = record c { conn_closed = true }

-- The end of readPump, when a read fails.
unfoldable pub read_ended : SignalServer → ℕ → SignalServer
unfolding unregister_client
read_ended s r = at_client (unregister_client s r) r hang_up

-- One round of writePump; `written` says whether WriteMessage returned nil.
unfoldable pub write_round : SignalClient → Bool → SignalClient
unfolding try_recv
write_round c written =
    if c.writing
    then elim (try_recv c.send) [
      | received reply rest ↦
          if written
          then record c { send = rest; sent_replies = c.sent_replies ++ reply ∷ [] }
          else record c { send = rest; writing = false; conn_closed = true }
      | drained ↦ record c { writing = false; conn_closed = true }
      | waiting ↦ c
    ]
    else c

-- handleMessage; the offer is handled in a goroutine of its own.
unfoldable pub handle_message : Incoming → Option OfferJob
handle_message not_json = none
handle_message (message kind stream_id payload) =
    if str_eq kind "offer"
    then elim payload [
      | none ↦ none
      | some p ↦ some (record {
        offer = p.sdp;
        stream_id = if str_eq stream_id "" then p.payload_stream_id else stream_id;
        message_stream_id = stream_id;
      })
    ]
    else none

-- SendAnswer and SendError; `none` is the panic of a send on a closed channel.
unfoldable pub send_reply : SignalServer → ℕ → Reply → Option SignalServer
unfolding try_send
send_reply s r reply = elim (get_elem? s.heap r) [
  | none ↦ some s
  | some c ↦ elim (try_send c.send reply) [
    | sent send ↦ some (record s { heap = set s.heap r (record c { send = send }) })
    | full ↦ some s
    | panicked ↦ none
  ]
]

-- The reply that handleOffer sends after onOffer has returned.
unfoldable pub offer_reply : Result String String → OfferJob → Reply
offer_reply (ok sdp) job = answer sdp job.message_stream_id
offer_reply (err text) job = error text job.message_stream_id

-- The end of handleOffer.
unfoldable pub offer_handled :
    SignalServer → ℕ → OfferJob → Result String String → Option SignalServer
unfolding send_reply offer_reply
offer_handled s r job outcome = send_reply s r (offer_reply outcome job)

unfoldable pub hang_up_all : List ℕ → SignalServer → SignalServer
hang_up_all [] s = s
hang_up_all (r ∷ clients) s = hang_up_all clients (at_client s r hang_up)

-- Close
unfoldable pub close_signal_server : SignalServer → SignalServer
unfolding hang_up_all
close_signal_server s = hang_up_all s.clients (record s { clients = [] })

-- GetClientCount
abbrev pub get_client_count : SignalServer → ℕ
get_client_count s = length s.clients
