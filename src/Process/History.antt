-- ===== src/Process/History.antt =====
-- Histories of the process manager, in any order of events: what each event makes of the map.
use media_stream.Base.{
  ℕ, ◌≡◌, refl, String, Bool, Option, none, some, List, get_elem?, inl, inr, Option-cases,
  Bool-cases, ◌&&◌, ◌∙◌, arith, str_eq, eq_iff, if◌then◌else◌, length,
}
use media_stream.Base.Int.{ℤ}
use media_stream.GoMap
use media_stream.GoMap.{get-put, get-remove}
use media_stream.Process.{
  Process, Manager, new_manager, is_running, start, logged, process_exited, restart_process,
  update_activity, check_inactive_processes,
}
use media_stream.Process.Listing.{IsValid, is_running-listed, is_running-absent, start-launched}
use media_stream.Process.Inactivity.{
  overdue, check_inactive_processes-exact, logged-stop-get, stop_all-empties,
}
use media_stream.Process.Events.{
  Event, starts, stops, updates, exits, restarts, checks, stops_all, step, run, run-IsValid,
  new_manager-IsValid,
}

-- The entry of `id` after a Start of `k`: an id that the map has keeps its process.
abbrev started : Manager → String → Option ℕ → String → Option ℕ
started m k launched id =
    if str_eq k id
    then elim (GoMap.get m.processes k) [
      | some r ↦ some r
      | none ↦ elim launched [ none ↦ none | some pid ↦ some (length m.heap) ]
    ]
    else GoMap.get m.processes id

-- The entry of `id` unless that is `k`, which is taken off.
abbrev taken_off : Manager → String → String → Option ℕ
taken_off m k id = if str_eq k id then none else GoMap.get m.processes id

-- The entry of `id` if its process is not overdue.
abbrev timely : Manager → ℕ → String → Option ℕ
timely m now id = elim (GoMap.get m.processes id) [
  | none ↦ none
  | some r ↦ elim (get_elem? m.heap r) [
    | none ↦ none
    | some p ↦ if overdue now p then none else some r
  ]
]

-- The entry of `id` after an event.
abbrev pub entry_after : Manager → Event → String → Option ℕ
entry_after m (starts k command restart close_after launched now) id = started m k launched id
entry_after m (stops k now) id = taken_off m k id
entry_after m (updates k now) id = GoMap.get m.processes id
entry_after m (exits r failed) id = elim (get_elem? m.heap r) [
  | none ↦ GoMap.get m.processes id
  | some p ↦ if p.restart && failed then GoMap.get m.processes id else taken_off m p.id id
]
entry_after m (restarts r launched now) id = elim (get_elem? m.heap r) [
  | none ↦ GoMap.get m.processes id
  | some p ↦ started m p.id launched id
]
entry_after m (checks now) id = timely m now id
entry_after m stops_all id = none

start-entry :
    (m : Manager) (k command : String) (restart : Bool) (close_after : ℤ) (launched : Option ℕ)
    (now : ℕ) (id : String)
    → IsValid m
    → GoMap.get (logged m (start m k command restart close_after launched now)).processes id
      ≡ started m k launched id
unfolding logged
start-entry m k command restart close_after launched now id v =
    elim (Option-cases (GoMap.get m.processes k)) [
      | inl h ↦ elim (Option-cases launched) [
        | inl none_launched ↦
            unfold start in
            rw (is_running-absent m k h, none_launched) (ground (arith, h, eq_iff k id))
        | inr (pid, some_launched) ↦
            rw
              (
                some_launched,
                start-launched m k command restart close_after pid now h,
                h,
                some_launched,
              )
              (get-put m.processes k id (length m.heap))
      ]
      | inr (r, h) ↦
          unfold start in rw (is_running-listed m k r v h) (ground (arith, h, eq_iff k id))
    ]

update-entry :
    (m : Manager) (k : String) (now : ℕ) (id : String)
    → GoMap.get (update_activity m k now).processes id ≡ GoMap.get m.processes id
unfolding update_activity
update-entry m k now id = elim (Option-cases (GoMap.get m.processes k)) [
  | inl h ↦ rw (h, update_activity) refl
  | inr (r, h) ↦ elim (Option-cases (get_elem? m.heap r)) [
    | inl e ↦ rw (h, e, update_activity) refl
    | inr (p, e) ↦ rw (h, e, update_activity) refl
  ]
]

exit-entry :
    (m : Manager) (p : Process) (failed : Bool) (id : String)
    → GoMap.get (process_exited m p failed).0.processes id
      ≡ (if p.restart && failed then GoMap.get m.processes id else taken_off m p.id id)
unfolding process_exited
exit-entry m p failed id = elim (Bool-cases (p.restart && failed)) [
  | inl h ↦ rw h refl
  | inr h ↦ rw h (get-remove m.processes p.id id)
]

check-entry :
    (m : Manager) (now : ℕ) (id : String)
    → IsValid m
    → GoMap.get (check_inactive_processes m now).processes id ≡ timely m now id
check-entry m now id v =
    let exact = check_inactive_processes-exact m now v in
    elim (Option-cases (GoMap.get m.processes id)) [
      | inl h ↦ exact.1 id h ∙ rw (h, timely) refl
      | inr (r, h) ↦
          let a = v.listed id r h in (exact.2 id r a.process h a.at).0 ∙ rw (h, a.at, timely) refl
    ]

pub step-entry :
    (m : Manager) (e : Event) (id : String)
    → IsValid m
    → GoMap.get (step m e).processes id ≡ entry_after m e id
unfolding step restart_process
step-entry m (starts k command restart close_after launched now) id v =
    start-entry m k command restart close_after launched now id v
step-entry m (stops k now) id v = logged-stop-get m k id
step-entry m (updates k now) id v = update-entry m k now id
step-entry m (exits r failed) id v = elim (Option-cases (get_elem? m.heap r)) [
  | inl h ↦ rw (h, step, entry_after) refl
  | inr (p, h) ↦ rw (h, step, entry_after) (exit-entry m p failed id)
]
step-entry m (restarts r launched now) id v = elim (Option-cases (get_elem? m.heap r)) [
  | inl h ↦ rw (h, step, entry_after) refl
  | inr (p, h) ↦
      rw (h, step, entry_after)
        (start-entry m p.id p.command p.restart p.close_after launched now id v)
]
step-entry m (checks now) id v = check-entry m now id v
step-entry m stops_all id v = (stop_all-empties m v).0 id

-- After any history of a new manager, the map is well formed (each id once, each leading to a
-- process that was launched under that id), and IsRunning says exactly whether the map has the id.
-- The next event makes just this of the entry of an id. Start, and a restart after the sleep, keeps
-- a process that the id has, and gives one that has none the new process, if it can be launched;
-- Stop takes the entry of its id off, and so does the exit of a process with that id, unless it is
-- to be restarted and has failed; the check takes off the entries of overdue processes, StopAll all.
pub run-listing :
    (es : List Event) (id : String)
    → IsValid (run new_manager es)
      × (is_running (run new_manager es) id ≡ GoMap.contains (run new_manager es).processes id)
      × ((e : Event)
          → GoMap.get (step (run new_manager es) e).processes id
            ≡ entry_after (run new_manager es) e id)
run-listing es id =
    let v = run-IsValid new_manager es new_manager-IsValid in
    (
      v,
      elim (Option-cases (GoMap.get (run new_manager es).processes id)) [
        | inl h ↦ is_running-absent _ id h ∙ rw h refl
        | inr (r, h) ↦ is_running-listed _ id r v h ∙ rw h refl
      ],
      λ e. step-entry (run new_manager es) e id v,
    )
