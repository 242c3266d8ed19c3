-- ===== src/Api/Streams/Serving.antt =====
-- What happens to the application: the requests, the offers and their peers, the events of streams
-- and clients, where each request but a deletion is served before the next one starts. The program
-- holds no lock over a request; Api/Streams/Races has what an overlap can do.
use media_stream.Base.{ℕ, String, Bool, Option, none, some, get_elem?, set, Result, ok, err}
use media_stream.Core.Stream.{Stream}
use media_stream.Core.Stream.Events.{Event, step}
use media_stream.Database.{StreamRow, SqlEngine, DbError}
use media_stream.Rtsp.Client.{Attempt, run}
use media_stream.App.{App}
use media_stream.App.Offers.{
  OfferError, offer_begin, Offer, offer_peer, offer_answered, on_peer_closed, set_stream,
}
use media_stream.Api.Streams.{
  PathRequest, ensure_stream, handle_create_stream, handle_update_stream, handle_delete_stream,
  handle_start_stream, handle_path_add, handle_path_delete, delete_begin, remove_managed,
}

-- `begins_delete` and `ends_delete` are the two parts of a deletion that others overlap, up to its
-- RemoveStream and from there on; `announces` is the CreateStream of the RTSP server; an event of a stream or a client has its
-- pointer.
pub data AppEvent : Type 0 where
  creates : Option StreamRow → ℕ → AppEvent
  updates : String → Option StreamRow → ℕ → AppEvent
  deletes begins_delete ends_delete starts deletes_path announces begins_offer closes_peer :
      String → AppEvent
  adds_path : String → Option PathRequest → ℕ → AppEvent
  adds_peer : String → String → AppEvent
  answers : String → String → ℕ → Option String → AppEvent
  changes_stream : ℕ → Event → AppEvent
  runs_client : ℕ → Attempt → AppEvent

module _ {S : Type 0} where
  unfoldable pub after_begin : App S → Result OfferError (App S × Offer) → App S
  after_begin app (ok (app', offer)) = app'
  after_begin app (err e) = app

  unfoldable pub after_delete_begin : App S → Result DbError (App S) → App S
  after_delete_begin app (ok app') = app'
  after_delete_begin app (err e) = app

  unfoldable pub after_peer : App S → Result OfferError (App S) → App S
  after_peer app (ok app') = app'
  after_peer app (err e) = app

  unfoldable pub after_step : App S → ℕ → Option Stream → Option (App S)
  after_step app r none = none
  after_step app r (some s) =
      some (record app { stream_manager = set_stream app.stream_manager r s })

  unfoldable pub change_stream : App S → ℕ → Event → Option (App S)
  unfolding after_step step
  change_stream app r e = elim (get_elem? app.stream_manager.heap r) [
    | none ↦ some app
    | some s ↦ after_step app r (step s e)
  ]

  unfoldable pub run_at : App S → ℕ → Attempt → App S
  unfolding run
  run_at app r a = elim (get_elem? app.clients r) [
    | none ↦ app
    | some c ↦ record app { clients = set app.clients r (run c a).0 }
  ]

module _ {S : Type 0} (E : SqlEngine S) (url_ok : String → Bool) where
  -- `none` is a panic.
  unfoldable pub serve_app : App S → AppEvent → Option (App S)
  unfolding handle_create_stream handle_update_stream handle_delete_stream handle_start_stream
      handle_path_add handle_path_delete ensure_stream offer_begin offer_peer offer_answered
      on_peer_closed after_begin after_peer change_stream run_at delete_begin remove_managed
      after_delete_begin
  serve_app app (creates body now) = some (handle_create_stream E url_ok app body now).0
  serve_app app (updates id body now) = some (handle_update_stream E url_ok app id body now).0
  serve_app app (deletes id) = elim (handle_delete_stream E url_ok app id) [
    | none ↦ none
    | some (app', status) ↦ some app'
  ]
  serve_app app (begins_delete id) = some (after_delete_begin app (delete_begin E url_ok app id))
  serve_app app (ends_delete id) = remove_managed app id
  serve_app app (starts id) = some (handle_start_stream E url_ok app id).0
  serve_app app (adds_path id body now) = some (handle_path_add E url_ok app id body now).0
  serve_app app (deletes_path id) = some (handle_path_delete E url_ok app id).0
  serve_app app (announces id) =
      some (record app { stream_manager = ensure_stream app.stream_manager id id })
  serve_app app (begins_offer id) = some (after_begin app (offer_begin E url_ok app id))
  serve_app app (adds_peer stream_id id) = some (after_peer app (offer_peer app stream_id id))
  serve_app app (answers stream_id id r answer) = some (offer_answered app stream_id id r answer).0
  serve_app app (closes_peer id) = some (on_peer_closed app id)
  serve_app app (changes_stream r e) = change_stream app r e
  serve_app app (runs_client r a) = some (run_at app r a)
