-- ===== src/Process.antt =====
-- go-legacy/internal/process/manager.go: the processes that runOnDemand starts, a goroutine that
-- waits for each, and the monitor that stops those without activity. A process is shared by the
-- map and its goroutine, so it lives on a heap. The operating system is an argument: whether a
-- launch succeeds, and how a process ended.
pub mod Listing
pub mod Inactivity
pub mod Monitor
pub mod Crashes
pub mod Events
pub mod History
pub mod Tests
use media_stream.Base.{
  ℕ, ◌-◌, String, Bool, true, false, Option, none, some, List, [], ◌∷◌, ◌++◌, ◌&&◌, not,
  if◌then◌else◌, is_some, length, get_elem?, set, Result, ok, err,
}
use media_stream.Base.Int.{ℤ, pos, leb_ℤ, ltb_ℤ}
use media_stream.GoMap
use media_stream.GoMap.{GoMap}

-- exec.Cmd: `process` is the number of the process that Start launched.
pub record Cmd : Type 0 where
  pub process : Option ℕ

-- `cancelled` says that cancelFunc was called, which kills the process.
pub record Process : Type 0 where
  pub id : String
  pub cmd : Option Cmd
  pub command : String
  pub restart : Bool
  pub close_after : ℤ
  pub cancelled : Bool
  pub last_activity : ℕ

pub record Manager : Type 0 where
  pub heap : List Process
  pub processes : GoMap ℕ

pub data ProcessError : Type 0 where
  already_running not_found : String → ProcessError
  start_failed : ProcessError

-- NewManager
unfoldable pub new_manager : Manager
unfolding GoMap.empty
new_manager = record { heap = []; processes = GoMap.empty }

-- proc.Cmd != nil && proc.Cmd.Process != nil
abbrev pub has_process : Process → Bool
has_process p = elim p.cmd [ none ↦ false | some c ↦ is_some c.process ]

unfoldable pub is_running : Manager → String → Bool
unfolding GoMap.get
is_running m id = elim (GoMap.get m.processes id) [
  | none ↦ false
  | some r ↦ elim (get_elem? m.heap r) [ none ↦ false | some p ↦ has_process p ]
]

-- What Start puts into the map.
abbrev pub launch : String → String → Bool → ℤ → ℕ → ℕ → Process
launch id command restart close_after pid now = record {
  id = id;
  cmd = some (record { process = some pid });
  command = command;
  restart = restart;
  close_after = close_after;
  cancelled = false;
  last_activity = now;
}

-- `launched` is the process that cmd.Start makes, if it makes one.
unfoldable pub start :
    Manager → String → String → Bool → ℤ → Option ℕ → ℕ → Result ProcessError Manager
unfolding is_running GoMap.put
start m id command restart close_after launched now =
    if is_running m id then err (already_running id) else elim launched [
      | none ↦ err start_failed
      | some pid ↦ ok (record {
        heap = m.heap ++ launch id command restart close_after pid now ∷ [];
        processes = GoMap.put m.processes id (length m.heap);
      })
    ]

-- proc.cancelFunc()
unfoldable pub cancel : ℕ → List Process → List Process
cancel r heap = elim (get_elem? heap r) [
  | none ↦ heap
  | some p ↦ set heap r (record p { cancelled = true })
]

unfoldable pub stop : Manager → String → Result ProcessError Manager
unfolding cancel GoMap.get GoMap.remove
stop m id = elim (GoMap.get m.processes id) [
  | none ↦ err (not_found id)
  | some r ↦ ok (record { heap = cancel r m.heap; processes = GoMap.remove m.processes id })
]

unfoldable pub update_activity : Manager → String → ℕ → Manager
unfolding GoMap.get
update_activity m id now = elim (GoMap.get m.processes id) [
  | none ↦ m
  | some r ↦ elim (get_elem? m.heap r) [
    | none ↦ m
    | some p ↦ record m { heap = set m.heap r (record p { last_activity = now }) }
  ]
]

-- A caller that logs the error and goes on.
unfoldable pub logged : Manager → Result ProcessError Manager → Manager
logged m (ok m') = m'
logged m (err e) = m

-- monitorProcess from the end of Cmd.Wait to its sleep or its end. `failed` is `err != nil`; the
-- Boolean says that it sleeps before a restart.
unfoldable pub process_exited : Manager → Process → Bool → Manager × Bool
unfolding GoMap.remove
process_exited m p failed =
    if p.restart && failed
    then (m, true)
    else (record m { processes = GoMap.remove m.processes p.id }, false)

-- monitorProcess after its sleep.
unfoldable pub restart_process : Manager → Process → Option ℕ → ℕ → Manager
unfolding logged start
restart_process m p launched now =
    logged m (start m p.id p.command p.restart p.close_after launched now)

-- The test of checkInactiveProcesses.
unfoldable pub is_inactive : ℕ → Process → Bool
is_inactive now p =
    if leb_ℤ p.close_after (pos 0) then false else ltb_ℤ p.close_after (pos (now - p.last_activity))

unfoldable pub inactive_at : List Process → ℕ → ℕ → Bool
unfolding is_inactive
inactive_at heap now r = elim (get_elem? heap r) [ none ↦ false | some p ↦ is_inactive now p ]

-- The loop that fills toStop.
unfoldable pub to_stop : List Process → ℕ → List (String × ℕ) → List String
unfolding inactive_at
to_stop heap now [] = []
to_stop heap now ((id, r) ∷ entries) =
    let ids = to_stop heap now entries in if inactive_at heap now r then id ∷ ids else ids

unfoldable pub stop_ids : List String → Manager → Manager
unfolding logged stop
stop_ids [] m = m
stop_ids (id ∷ ids) m = stop_ids ids (logged m (stop m id))

unfoldable pub check_inactive_processes : Manager → ℕ → Manager
unfolding to_stop stop_ids
check_inactive_processes m now = stop_ids (to_stop m.heap now m.processes.entries) m

unfoldable pub keys : List (String × ℕ) → List String
keys [] = []
keys ((id, r) ∷ entries) = id ∷ keys entries

unfoldable pub stop_all : Manager → Manager
unfolding keys stop_ids
stop_all m = stop_ids (keys m.processes.entries) m
