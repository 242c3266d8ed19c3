-- ===== src/Signaling/Tests.antt =====
-- The theorems on the signaling server, with one browser.
use media_stream.Base.{
  ℕ, ◌≡◌, refl, not, String, Bool, true, none, some, [], ◌∷◌, is_some, get_elem?, Result, ok,
}
use media_stream.Signaling.{
  SignalClient, SignalServer, OfferJob, new_signal_server, new_signal_client, connect, read_ended,
}
use media_stream.Signaling.History.{
  connects, loses, writes, replies, closes, serve_signal, IsSound, Reach, here, next,
  clients_closed_once,
}
use media_stream.Signaling.Closing.{late_reply_panics}

abbrev one_browser : SignalServer
one_browser = record { heap = new_signal_client "client-1" ∷ []; clients = 0 ∷ [] }

one_browser-Reach : Reach one_browser
unfolding serve_signal connect
one_browser-Reach = next new_signal_server one_browser (connects "client-1") here refl

clients_closed_once_example :
    IsSound one_browser
    × ((id : String) → is_some (serve_signal one_browser (connects id)) ≡ true)
    × ((r : ℕ) → is_some (serve_signal one_browser (loses r)) ≡ true)
    × ((r : ℕ) (written : Bool) → is_some (serve_signal one_browser (writes r written)) ≡ true)
    × (is_some (serve_signal one_browser closes) ≡ true)
    × ((r : ℕ) (c : SignalClient) (job : OfferJob) (outcome : Result String String)
        → get_elem? one_browser.heap r ≡ some c
        → is_some (serve_signal one_browser (replies r job outcome)) ≡ not c.send.closed)
clients_closed_once_example = clients_closed_once one_browser one_browser-Reach

abbrev gate_offer : OfferJob
gate_offer = record { offer = "v=0"; stream_id = "gate"; message_stream_id = "gate" }

late_reply_panics_example :
    serve_signal (read_ended one_browser 0) (replies 0 gate_offer (ok "v=0")) ≡ none
late_reply_panics_example =
    late_reply_panics one_browser 0 (new_signal_client "client-1") gate_offer (ok "v=0") refl refl
