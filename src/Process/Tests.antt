-- ===== src/Process/Tests.antt =====
-- The theorems on the process manager, at a manager of one process.
use media_stream.Base.{
  ℕ, ◌≡◌, refl, String, Bool, true, Option, none, some, List, [], ◌∷◌, if◌then◌else◌, get_elem?,
  length, ok, err,
}
use media_stream.Base.Int.{ℤ, pos}
use media_stream.GoMap
use media_stream.Process.{
  Process, Manager, new_manager, launch, is_running, start, stop, update_activity, process_exited,
  restart_process, check_inactive_processes, logged, already_running,
}
use media_stream.Process.Listing.{IsValid}
use media_stream.Process.Inactivity.{kill, overdue, check_inactive_processes-exact}
use media_stream.Process.Crashes.{crash_blocks_restart}
use media_stream.Process.Events.{Event, starts, stops, updates, checks, step, run}
use media_stream.Process.History.{entry_after, run-listing}

abbrev transcoder : Process
transcoder = launch "gate" "ffmpeg" true (pos 15) 41 100

abbrev one_process : Manager
one_process = record { heap = transcoder ∷ []; processes = record { entries = ("gate", 0) ∷ [] } }

abbrev one_start : List Event
one_start = starts "gate" "ffmpeg" true (pos 15) (some 41) 100 ∷ []

one_process-IsValid : IsValid one_process
unfolding run step new_manager start logged is_running GoMap.empty GoMap.get GoMap.put
one_process-IsValid = (run-listing one_start "gate").0

run-listing_example :
    IsValid (run new_manager (checks 116 ∷ one_start))
    × (is_running (run new_manager (checks 116 ∷ one_start)) "gate"
        ≡ GoMap.contains (run new_manager (checks 116 ∷ one_start)).processes "gate")
    × ((e : Event)
        → GoMap.get (step (run new_manager (checks 116 ∷ one_start)) e).processes "gate"
          ≡ entry_after (run new_manager (checks 116 ∷ one_start)) e "gate")
run-listing_example = run-listing (checks 116 ∷ one_start) "gate"

-- The process crashes, something else is stopped, its activity is noted, and it is found in time.
abbrev sleep : List Event
sleep = stops "hall" 101 ∷ updates "gate" 110 ∷ checks 120 ∷ []

crash_blocks_restart_example :
    ((launched : Option ℕ) (now : ℕ)
      → restart_process
          (run (process_exited one_process transcoder true).0 sleep)
          transcoder
          launched
          now
        ≡ run (process_exited one_process transcoder true).0 sleep)
    × (is_running (run (process_exited one_process transcoder true).0 sleep) "gate" ≡ true)
    × ((command : String) (restart : Bool) (close_after : ℤ) (launched : Option ℕ) (now : ℕ)
        → start
            (run (process_exited one_process transcoder true).0 sleep)
            "gate"
            command
            restart
            close_after
            launched
            now
          ≡ err (already_running "gate"))
    × ((pid now : ℕ)
        → (m' : Manager) × (stop (run (process_exited one_process transcoder true).0 sleep) "gate"
            ≡ ok m')
          × (GoMap.get (restart_process m' transcoder (some pid) now).processes "gate"
              ≡ some (length m'.heap))
          × (get_elem? (restart_process m' transcoder (some pid) now).heap (length m'.heap)
              ≡ some (launch "gate" "ffmpeg" true (pos 15) pid now)))
unfolding process_exited step logged stop update_activity GoMap.get GoMap.lookup
crash_blocks_restart_example =
    crash_blocks_restart one_process "gate" 0 transcoder sleep one_process-IsValid refl refl refl
      (refl, (refl, (refl, tt)))

check_inactive_processes-exact_example :
    IsValid (check_inactive_processes one_process 116)
    × ((k : String)
        → GoMap.get one_process.processes k ≡ none
        → GoMap.get (check_inactive_processes one_process 116).processes k ≡ none)
    × ((k : String) (r : ℕ) (p : Process)
        → GoMap.get one_process.processes k ≡ some r
        → get_elem? one_process.heap r ≡ some p
        → (GoMap.get (check_inactive_processes one_process 116).processes k
            ≡ (if overdue 116 p then none else some r))
          × (get_elem? (check_inactive_processes one_process 116).heap r
              ≡ some (if overdue 116 p then kill p else p)))
check_inactive_processes-exact_example =
    check_inactive_processes-exact one_process 116 one_process-IsValid

-- A process is stopped once it has been idle for longer than its closeAfter.
idle_stopped : GoMap.get (check_inactive_processes one_process 116).processes "gate" ≡ none
unfolding check_inactive_processes GoMap.get GoMap.remove
idle_stopped = refl

idle_kept : GoMap.get (check_inactive_processes one_process 115).processes "gate" ≡ some 0
unfolding check_inactive_processes GoMap.get GoMap.remove
idle_kept = refl
