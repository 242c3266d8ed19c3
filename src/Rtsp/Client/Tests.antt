-- ===== src/Rtsp/Client/Tests.antt =====
-- The theorems on the RTSP client, at a camera that never answers.
use media_stream.Base.{ℕ, ◌≡◌, refl, true, false, none, [], ok}
use media_stream.Base.Int.{pos, negsuc}
use media_stream.Rtsp.Client.{ClientConfig, Client, Attempt, new_client, retry}
use media_stream.Rtsp.Client.Retry.{Ends, hopeless, retry-Ends, only_negative_retries_forever}

abbrev dead : Attempt
dead = record {
  cancelled_before = false;
  url_parsed = true;
  connects = false;
  base_url_parsed = true;
  described = none;
  set_up = true;
  plays = true;
  packets = [];
  wait_failed = false;
  cancelled_after = false;
  cancelled_waiting = false;
}

abbrev dead_camera : ℕ → Attempt
dead_camera n = dead

abbrev camera : ClientConfig
camera = record {
  url = "rtsp://10.0.0.5/live";
  transport = "";
  timeout = pos 0;
  retry_count = pos 0;
  retry_delay = pos 0;
}

abbrev client : Client
client = record {
  url = "rtsp://10.0.0.5/live";
  transport = "tcp";
  timeout = pos 10_000_000_000;
  retry_count = pos 3;
  retry_delay = pos 5_000_000_000;
  stream = 7;
  ctx_done = false;
  connected = false;
  packets_received = 0;
  bytes_received = 0;
}

camera_client : new_client camera 7 true ≡ ok client
unfolding new_client
camera_client = refl

retry-Ends_example : Ends 2 dead_camera client
retry-Ends_example = retry-Ends 2 dead_camera client refl

abbrev stubborn : Client
stubborn = record client { retry_count = negsuc 0 }

stubborn_client : new_client (record camera { retry_count = negsuc 0 }) 7 true ≡ ok stubborn
unfolding new_client
stubborn_client = refl

only_negative_retries_forever_example :
    (negsuc 0 ≡ pos 0 → (env : ℕ → Attempt) → Ends 2 env stubborn)
    × ((m fuel : ℕ) (env : ℕ → Attempt)
        → negsuc 0 ≡ negsuc m
        → ((j : ℕ) → hopeless (env j) ≡ true)
        → retry fuel env 0 stubborn [] ≡ none)
only_negative_retries_forever_example =
    only_negative_retries_forever (record camera { retry_count = negsuc 0 }) 7 stubborn
      stubborn_client
