-- ===== src/Rtsp/Client/Retry.antt =====
-- How often runWithRetry tries.
use media_stream.Base.{
  ℕ, zero, suc, ◌+◌, ◌≤◌, ◌≡◌, refl, ◌∙◌, Bool, true, false, Option, none, some, List, [], ◌∷◌,
  ◌++◌, ◌&&◌, not, arith, is_some, if_cases, Bool-cases, Option-cases, inl, inr, ok,
}
use media_stream.Base.Int.{pos, negsuc, leb_ℤ, ltb_ℤ}
use media_stream.Core.Stream.{Packet}
use media_stream.Rtsp.Client.{
  ClientConfig, Client, Attempt, Effect, RunError, Runs, Ending, gave_up, cancelled, finished,
  on_disconnect, run, retry, round, next_round, Round, ends, again, attempt_round, after_failure,
  play, describe, new_client, handle_rtp_packets, handle_rtp_packet,
}

-- The attempt ends in an error, wherever it comes from.
abbrev pub fails : Attempt → Bool
fails a = not (
    a.url_parsed
    && a.connects
    && a.base_url_parsed
    && is_some a.described
    && a.set_up
    && a.plays
    && not a.wait_failed)

-- The attempt is made and fails, and the context is not cancelled by its end.
abbrev pub lost : Attempt → Bool
lost a = not a.cancelled_before && fails a && not a.cancelled_after

abbrev pub is_gave_up : Ending → Bool
is_gave_up gave_up = true
is_gave_up cancelled = false
is_gave_up finished = false

-- No further attempt is allowed after this many.
abbrev exhausted : Client → ℕ → Bool
exhausted c attempts = ltb_ℤ (pos 0) c.retry_count && leb_ℤ c.retry_count (pos attempts)

run-fails : (c : Client) (a : Attempt) → is_some (run c a).2 ≡ fails a
unfolding run describe play
run-fails c a = ground (arith, Option-cases a.described)

handle_rtp_packets-retry_count :
    (c : Client) (ps : List Packet) → (handle_rtp_packets c ps).retry_count ≡ c.retry_count
unfolding handle_rtp_packets handle_rtp_packet
handle_rtp_packets-retry_count c [] = refl
handle_rtp_packets-retry_count c (p ∷ ps) =
    handle_rtp_packets-retry_count (handle_rtp_packet c p) ps

run-retry_count : (c : Client) (a : Attempt) → (run c a).0.retry_count ≡ c.retry_count
unfolding run describe play
run-retry_count c a = ground (
  arith,
  Option-cases a.described,
  handle_rtp_packets-retry_count (record c { connected = true }) a.packets,
)

-- The round ends by itself, it gives up, or it goes on.
Outcome : Attempt → ℕ → Client → Round → Type 0
Outcome a i c (ends r) =
    (r.attempts ≤ i + 1)
    × (is_gave_up r.ending ≡ (lost a && exhausted c (i + 1)))
    × (is_gave_up r.ending ≡ true → r.attempts ≡ i + 1)
    × ((lost a && not a.cancelled_waiting) ≡ true → is_gave_up r.ending ≡ true)
Outcome a i c (again c' done) =
    (lost a ≡ true)
    × (exhausted c (i + 1) ≡ false)
    × (a.cancelled_waiting ≡ false)
    × (c'.retry_count ≡ c.retry_count)

after_failure-Outcome :
    (a : Attempt) (i : ℕ) (c c' : Client) (done : List Effect)
    → lost a ≡ true
    → c'.retry_count ≡ c.retry_count
    → Outcome a i c (after_failure a (i + 1) c' done)
unfolding after_failure Outcome
after_failure-Outcome a i c c' done l k = elim (Bool-cases (exhausted c' (i + 1))) [
  | inl x ↦ rw x (ground (arith, k))
  | inr x ↦ elim (Bool-cases a.cancelled_waiting) [
    | inl w ↦ rw (x, w) (ground (arith, k))
    | inr w ↦ rw (x, w) (ground (arith, k))
  ]
]

attempt_round-Outcome :
    (a : Attempt) (i : ℕ) (c : Client) (done : List Effect)
    (t : Client × List Effect × Option RunError)
    → a.cancelled_before ≡ false
    → is_some t.2 ≡ fails a
    → t.0.retry_count ≡ c.retry_count
    → Outcome a i c (attempt_round a i done t)
unfolding attempt_round after_failure Outcome
attempt_round-Outcome a i c done (c', effects, none) b f k = ground arith
attempt_round-Outcome a i c done (c', effects, some e) b f k =
    if_cases (Outcome a i c) a.cancelled_after (λ h. ground arith)
      (λ h.
        after_failure-Outcome a i c (record c' { connected = false })
          (done ++ effects ++ on_disconnect ∷ []) (ground (arith, f)) k)

round-Outcome :
    (a : Attempt) (i : ℕ) (c : Client) (done : List Effect) → Outcome a i c (round a i c done)
unfolding round Outcome
round-Outcome a i c done =
    if_cases (Outcome a i c) a.cancelled_before (λ h. ground arith)
      (λ h. attempt_round-Outcome a i c done (run c a) h (run-fails c a) (run-retry_count c a))

-- Each of the attempts from the given one is lost, and the waits between them are not cancelled.
abbrev pub all_lost : ℕ → (ℕ → Attempt) → ℕ → Bool
all_lost zero env i = lost (env i)
all_lost (suc k) env i = lost (env i) && not (env i).cancelled_waiting && all_lost k env (i + 1)

-- What holds of the loop with `k` attempts left after the one of number `i`.
abbrev Ended : ℕ → (ℕ → Attempt) → ℕ → Option Runs → Type 0
Ended k env i none = ⊥
Ended k env i (some r) =
    (r.attempts ≤ i + k + 1)
    × (is_gave_up r.ending ≡ all_lost k env i)
    × (is_gave_up r.ending ≡ true → r.attempts ≡ i + k + 1)

Ended-suc :
    (k : ℕ) (env : ℕ → Attempt) (i : ℕ) (o : Option Runs)
    → lost (env i) ≡ true
    → (env i).cancelled_waiting ≡ false
    → Ended k env (i + 1) o
    → Ended (suc k) env i o
Ended-suc k env i none l w e = absurd e
Ended-suc k env i (some r) l w e = ground (arith, l, w, e)

Ended-round :
    (k : ℕ) (env : ℕ → Attempt) (i : ℕ) (c : Client) (o : Round)
    (go : Client → List Effect → Option Runs)
    → c.retry_count ≡ pos (i + suc k + 1)
    → ((c' : Client) (d : List Effect)
        → c'.retry_count ≡ c.retry_count
        → Ended k env (i + 1) (go c' d))
    → Outcome (env i) i c o
    → Ended (suc k) env i (next_round o go)
unfolding Outcome next_round
Ended-round k env i c (ends r) go h f w = ground (arith, w)
Ended-round k env i c (again c' d) go h f w = Ended-suc k env i (go c' d) w.0 w.2 (f c' d w.3)

Ended-last :
    (env : ℕ → Attempt) (i : ℕ) (c : Client) (o : Round) (go : Client → List Effect → Option Runs)
    → c.retry_count ≡ pos (i + 1)
    → Outcome (env i) i c o
    → Ended zero env i (next_round o go)
unfolding Outcome next_round
Ended-last env i c (ends r) go h w = ground (arith, w)
Ended-last env i c (again c' d) go h w = absurd (ground (arith, w))

retry-Ended :
    (k : ℕ) (env : ℕ → Attempt) (i : ℕ) (c : Client) (done : List Effect)
    → c.retry_count ≡ pos (i + k + 1)
    → Ended k env i (retry (suc k) env i c done)
unfolding retry
retry-Ended zero env i c done h =
    Ended-last env i c (round (env i) i c done) (λ c' d. none) (ground (arith, h))
      (round-Outcome (env i) i c done)
retry-Ended (suc k) env i c done h =
    Ended-round k env i c (round (env i) i c done) (λ c' d. retry (suc k) env (i + 1) c' d) h
      (λ c' d e. retry-Ended k env (i + 1) c' d (ground (arith, e, h)))
      (round-Outcome (env i) i c done)

-- What runWithRetry has done with a count of `suc n` retries.
abbrev pub Ends : ℕ → (ℕ → Attempt) → Client → Type 0
Ends n env c =
    (r : Runs) × (retry (suc n) env 0 c [] ≡ some r)
    × (r.attempts ≤ n + 1)
    × (is_gave_up r.ending ≡ all_lost n env 0)
    × (is_gave_up r.ending ≡ true → r.attempts ≡ n + 1)

Ended-Ends :
    (n : ℕ) (env : ℕ → Attempt) (c : Client) (o : Option Runs)
    → retry (suc n) env 0 c [] ≡ o
    → Ended n env 0 o
    → Ends n env c
Ended-Ends n env c none h e = absurd e
Ended-Ends n env c (some r) h e = (r, h, ground (arith, e), e.1, λ g. ground (arith, e, g))

-- With a positive retry count the loop of runWithRetry ends, whatever its attempts meet: fuel for as
-- many rounds as the count is enough, and it makes at most that many attempts. It gives up exactly
-- if every one of them is lost (made, failed and not cancelled) and no wait between two is
-- cancelled, and then it has made all of them.
pub retry-Ends :
    (n : ℕ) (env : ℕ → Attempt) (c : Client) → c.retry_count ≡ pos (suc n) → Ends n env c
retry-Ends n env c h =
    Ended-Ends n env c (retry (suc n) env 0 c []) refl
      (retry-Ended n env 0 c [] (ground (arith, h)))

-- The context is cancelled at no point of the attempt, and the attempt fails.
abbrev pub hopeless : Attempt → Bool
hopeless a = lost a && not a.cancelled_waiting

unbounded-round :
    (a : Attempt) (i m : ℕ) (c : Client) (o : Round) (go : Client → List Effect → Option Runs)
    → c.retry_count ≡ negsuc m
    → hopeless a ≡ true
    → Outcome a i c o
    → ((c' : Client) (d : List Effect) → c'.retry_count ≡ negsuc m → go c' d ≡ none)
    → next_round o go ≡ none
unfolding Outcome next_round
unbounded-round a i m c (ends r) go h l w f = absurd (ground (arith, w))
unbounded-round a i m c (again c' d) go h l w f = f c' d (w.3 ∙ h)

unbounded :
    (fuel : ℕ) (env : ℕ → Attempt) (i m : ℕ) (c : Client) (done : List Effect)
    → c.retry_count ≡ negsuc m
    → ((j : ℕ) → hopeless (env j) ≡ true)
    → retry fuel env i c done ≡ none
unfolding retry
unbounded zero env i m c done h l = refl
unbounded (suc fuel) env i m c done h l =
    unbounded-round (env i) i m c (round (env i) i c done) (λ c' d. retry fuel env (i + 1) c' d) h
      (l i) (round-Outcome (env i) i c done) (λ c' d e. unbounded fuel env (i + 1) m c' d e l)

-- A client that NewClient makes keeps a retry count other than 0 and takes 3 for 0. So a
-- configuration with 0 retries ends within 3 attempts, whatever they meet; one with a negative count
-- never ends while every attempt fails and the context is not cancelled.
pub only_negative_retries_forever :
    (cfg : ClientConfig) (stream : ℕ) (c : Client)
    → new_client cfg stream true ≡ ok c
    → (cfg.retry_count ≡ pos 0 → (env : ℕ → Attempt) → Ends 2 env c)
      × ((m fuel : ℕ) (env : ℕ → Attempt)
          → cfg.retry_count ≡ negsuc m
          → ((j : ℕ) → hopeless (env j) ≡ true)
          → retry fuel env 0 c [] ≡ none)
unfolding new_client
only_negative_retries_forever cfg stream c h = (
  λ z env. retry-Ends 2 env c (ground (arith, h, z)),
  λ m fuel env z l. unbounded fuel env 0 m c [] (ground (arith, h, z)) l,
)
