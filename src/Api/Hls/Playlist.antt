-- ===== src/Api/Hls/Playlist.antt =====
-- What a request for a playlist does, and what it needs of the application.
use media_stream.Base.{
  ℕ, zero, suc, ◌+◌, ◌≤◌, ◌<◌, ◌≡◌, subst, sym, String, Bool, true, Option, none, some, arith, ok,
  err, Option-cases, Result-cases, Bool-cases, inl, inr, ltb,
}
use media_stream.Database.{SqlEngine}
use media_stream.App.{App, AppError, start_on_demand_stream}
use media_stream.App.Running.{IsRunning}
use media_stream.App.Stopping.{start_on_demand_stream-IsRunning}
use media_stream.App.Running.{IsRunning?}
use media_stream.Api.Hls.{
  HlsView, HlsReply, hls_served, hls_refused, max_retries, wait_muxer, start_playlist,
  handle_hls_playlist,
}

-- The first muxer from wait i on, of n waits.
pub data Found {M : Type 0} (later : ℕ → Option M) (i n : ℕ) : Option M → Type 0 where
  never : ((j : ℕ) → i ≤ j → j < i + n → later j ≡ none) → Found later i n none
  first :
      (k : ℕ) (x : M)
      → i ≤ k
      → k < i + n
      → later k ≡ some x
      → ((j : ℕ) → i ≤ j → j < k → later j ≡ none)
      → Found later i n (some x)

none_before :
    {M : Type 0} (later : ℕ → Option M) (i k : ℕ)
    → later i ≡ none
    → ((j : ℕ) → suc i ≤ j → j < k → later j ≡ none)
    → (j : ℕ) → i ≤ j
    → j < k
    → later j ≡ none
none_before later i k e f j l u = elim (Bool-cases (ltb i j)) [
  | inl q ↦ f j (ground (arith, q)) u
  | inr q ↦ (let same : i ≡ j = ground (arith, q, l) in subst (λ a. later a ≡ none) same e)
]

Found-later :
    {M : Type 0} (later : ℕ → Option M) (i n : ℕ) (o : Option M)
    → later i ≡ none
    → Found later (suc i) n o
    → Found later i (suc n) o
Found-later later i n none e (never f) =
    never (λ j l u. none_before later i (suc i + n) e f j l (omega (arith, u)))
Found-later later i n (some _) e (first k x l u g f) =
    first k x (omega (arith, l)) (omega (arith, u)) g (none_before later i k e f)

wait_muxer-Found :
    {M : Type 0} (later : ℕ → Option M) (i n : ℕ) → Found later i n (wait_muxer n later i)
unfolding wait_muxer
wait_muxer-Found later i zero = never (λ j l u. absurd (omega (arith, l, u)))
wait_muxer-Found later i (suc n) = elim (Option-cases (later i)) [
  | inr (x, e) ↦
      rw (e, wait_muxer)
        (first i x (omega arith) (omega arith) e (λ j l u. absurd (omega (arith, l, u))))
  | inl e ↦
      rw (e, wait_muxer)
        (Found-later later i n (wait_muxer n later (suc i)) e (wait_muxer-Found later (suc i) n))
]

started-IsRunning :
    {S : Type 0} (E : SqlEngine S) (url_ok : String → Bool) (app app' : App S) (id : String)
    → IsRunning app
    → start_on_demand_stream E url_ok app id ≡ ok app'
    → IsRunning app'
started-IsRunning E url_ok app app' id v h =
    subst IsRunning? h (start_on_demand_stream-IsRunning E url_ok app id v)

module _ {S M B : Type 0} (E : SqlEngine S) (url_ok : String → Bool) where
  -- The ways of a playlist where HLS is enabled.
  pub data Played (app : App S) (hls : HlsView M B) (id : String) (later : ℕ → Option M)
      : App S × HlsReply M B → Type 0 where
    at_once : (x : M) → hls.muxer id ≡ some x → Played app hls id later (app, hls_served x)
    not_started :
        (e : AppError)
        → hls.muxer id ≡ none
        → start_on_demand_stream E url_ok app id ≡ err e
        → Played app hls id later (app, hls_refused 503)
    waited :
        (app' : App S) (k : ℕ) (x : M)
        → hls.muxer id ≡ none
        → start_on_demand_stream E url_ok app id ≡ ok app'
        → k < max_retries
        → later k ≡ some x
        → ((j : ℕ) → j < k → later j ≡ none)
        → Played app hls id later (app', hls_served x)
    gave_up :
        (app' : App S)
        → hls.muxer id ≡ none
        → start_on_demand_stream E url_ok app id ≡ ok app'
        → ((j : ℕ) → j < max_retries → later j ≡ none)
        → Played app hls id later (app', hls_refused 503)

  started-Played :
      (app app' : App S) (hls : HlsView M B) (id : String) (later : ℕ → Option M) (o : Option M)
      → hls.muxer id ≡ none
      → start_on_demand_stream E url_ok app id ≡ ok app'
      → Found later 0 max_retries o
      → Played app hls id later
          (elim o [ none ↦ (app', hls_refused 503) | some x ↦ (app', hls_served x) ])
  started-Played app app' hls id later none h e (never f) =
      gave_up app' h e (λ j u. f j (omega arith) u)
  started-Played app app' hls id later (some _) h e (first k x l u g f) =
      waited app' k x h e u g (λ j w. f j (omega arith) w)

  start_playlist-Played :
      (app : App S) (hls : HlsView M B) (id : String) (later : ℕ → Option M)
      → hls.muxer id ≡ none
      → Played app hls id later (start_playlist E url_ok app id later)
  unfolding start_playlist
  start_playlist-Played app hls id later h =
      elim (Result-cases (start_on_demand_stream E url_ok app id)) [
        | inl (e, g) ↦ rw (g, start_playlist) (not_started e h g)
        | inr (app', g) ↦
            rw (g, start_playlist)
              (started-Played app app' hls id later (wait_muxer max_retries later 0) h g
                (wait_muxer-Found later 0 max_retries))
      ]

  Played-IsRunning :
      (app : App S) (hls : HlsView M B) (id : String) (later : ℕ → Option M)
      (r : App S × HlsReply M B)
      → IsRunning app
      → Played app hls id later r
      → IsRunning r.0
  Played-IsRunning app hls id later (_, _) v (at_once x h) = v
  Played-IsRunning app hls id later (_, _) v (not_started e h g) = v
  Played-IsRunning app hls id later (_, _) v (waited app' k x h g u l f) =
      started-IsRunning E url_ok app app' id v g
  Played-IsRunning app hls id later (_, _) v (gave_up app' h g f) =
      started-IsRunning E url_ok app app' id v g

  playlist-at_once :
      (nil_panics : Bool) (app : App S) (hls : HlsView M B) (id : String) (later : ℕ → Option M)
      (x : M)
      → hls.enabled ≡ true
      → hls.muxer id ≡ some x
      → handle_hls_playlist E url_ok nil_panics app (some hls) id later ≡ (app, hls_served x)
  unfolding handle_hls_playlist
  playlist-at_once nil_panics app hls id later x h e = ground (arith, h, e)

  playlist-later :
      (nil_panics : Bool) (app : App S) (hls : HlsView M B) (id : String) (later : ℕ → Option M)
      → hls.enabled ≡ true
      → hls.muxer id ≡ none
      → handle_hls_playlist E url_ok nil_panics app (some hls) id later
        ≡ start_playlist E url_ok app id later
  unfolding handle_hls_playlist
  playlist-later nil_panics app hls id later h e = ground (arith, h, e)

  -- Where HLS is enabled and the application runs, handleHLSPlaylist serves the muxer that is there
  -- and changes nothing; or else the stream is started, and the response is 503 where that fails or
  -- where none of the ten waits ends with a muxer, and the first muxer otherwise. The application
  -- still runs, whatever the response.
  pub handle_hls_playlist-Played :
      (nil_panics : Bool) (app : App S) (hls : HlsView M B) (id : String) (later : ℕ → Option M)
      → hls.enabled ≡ true
      → IsRunning app
      → Played app hls id later (handle_hls_playlist E url_ok nil_panics app (some hls) id later)
        × IsRunning (handle_hls_playlist E url_ok nil_panics app (some hls) id later).0
  handle_hls_playlist-Played nil_panics app hls id later h v =
      let played : Played app hls id later
          (handle_hls_playlist E url_ok nil_panics app (some hls) id later) =
        elim (Option-cases (hls.muxer id)) [
          | inr (x, e) ↦
              subst (Played app hls id later)
                (sym (playlist-at_once nil_panics app hls id later x h e)) (at_once x e)
          | inl e ↦
              subst (Played app hls id later) (sym (playlist-later nil_panics app hls id later h e))
                (start_playlist-Played app hls id later e)
        ] in
      (played, Played-IsRunning app hls id later _ v played)
