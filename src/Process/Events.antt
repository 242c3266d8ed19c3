-- ===== src/Process/Events.antt =====
-- The events of the process manager: calls, exits of processes and the restarts that follow them.
-- Each keeps the map well formed.
use media_stream.Base.{
  ℕ, refl, String, Bool, Option, none, some, List, [], ◌∷◌, get_elem?, inl, inr, Option-cases,
  Bool-cases, ◌&&◌, arith,
}
use media_stream.Base.Int.{ℤ}
use media_stream.GoMap
use media_stream.GoMap.{get-empty}
use media_stream.Process.{
  Process, Manager, new_manager, start, stop, update_activity, process_exited, logged,
  restart_process, check_inactive_processes, stop_all, launch, keys,
}
use media_stream.Process.Listing.{
  IsValid, with_process-IsValid, without_process-IsValid, unlisted-IsValid, Listed-set,
  stop-present, stop-absent, is_running-listed, is_running-absent, start-launched,
}
use media_stream.Process.Inactivity.{check_inactive_processes-exact, stop_ids-IsValid}

-- Exits and restarts name the process by its pointer.
pub data Event : Type 0 where
  starts : String → String → Bool → ℤ → Option ℕ → ℕ → Event
  stops updates : String → ℕ → Event
  exits : ℕ → Bool → Event
  restarts : ℕ → Option ℕ → ℕ → Event
  checks : ℕ → Event
  stops_all : Event

unfoldable pub step : Manager → Event → Manager
step m (starts id command restart close_after launched now) =
    logged m (start m id command restart close_after launched now)
step m (stops id now) = logged m (stop m id)
step m (updates id now) = update_activity m id now
step m (exits r failed) = elim (get_elem? m.heap r) [
  | none ↦ m
  | some p ↦ (process_exited m p failed).0
]
step m (restarts r launched now) = elim (get_elem? m.heap r) [
  | none ↦ m
  | some p ↦ restart_process m p launched now
]
step m (checks now) = check_inactive_processes m now
step m stops_all = stop_all m

unfoldable pub run : Manager → List Event → Manager
unfolding step
run m [] = m
run m (e ∷ es) = run (step m e) es

start-IsValid :
    (m : Manager) (id command : String) (restart : Bool) (close_after : ℤ) (launched : Option ℕ)
    (now : ℕ)
    → IsValid m
    → IsValid (logged m (start m id command restart close_after launched now))
unfolding logged
start-IsValid m id command restart close_after launched now v =
    elim (Option-cases (GoMap.get m.processes id)) [
      | inl h ↦ elim (Option-cases launched) [
        | inl none_launched ↦ unfold start in rw (is_running-absent m id h, none_launched) v
        | inr (pid, some_launched) ↦
            rw (some_launched, start-launched m id command restart close_after pid now h)
              (with_process-IsValid m (launch id command restart close_after pid now) refl v)
      ]
      | inr (r, h) ↦ unfold start in rw (is_running-listed m id r v h) v
    ]

stop-IsValid : (m : Manager) (id : String) → IsValid m → IsValid (logged m (stop m id))
unfolding logged
stop-IsValid m id v = elim (Option-cases (GoMap.get m.processes id)) [
  | inl h ↦ rw (stop-absent m id h) v
  | inr (r, h) ↦ rw (stop-present m id r h) (without_process-IsValid m id r v)
]

update-IsValid :
    (m : Manager) (id : String) (now : ℕ) → IsValid m → IsValid (update_activity m id now)
unfolding update_activity
update-IsValid m id now v = elim (Option-cases (GoMap.get m.processes id)) [
  | inl h ↦ rw (h, update_activity) v
  | inr (r, h) ↦
      let a = v.listed id r h in
      rw (h, update_activity, a.at)
        (record {
          distinct = v.distinct;
          listed = λ k i e.
              Listed-set m.heap r a.process (record a.process { last_activity = now }) k i a.at refl
                refl (v.listed k i e);
        })
]

exit-IsValid :
    (m : Manager) (p : Process) (failed : Bool) → IsValid m → IsValid (process_exited m p failed).0
unfolding process_exited
exit-IsValid m p failed v = elim (Bool-cases (p.restart && failed)) [
  | inl h ↦ rw h v
  | inr h ↦ rw h (unlisted-IsValid m p.id v)
]

pub step-IsValid : (m : Manager) (e : Event) → IsValid m → IsValid (step m e)
unfolding step
step-IsValid m (starts id command restart close_after launched now) v =
    start-IsValid m id command restart close_after launched now v
step-IsValid m (stops id now) v = stop-IsValid m id v
step-IsValid m (updates id now) v = update-IsValid m id now v
step-IsValid m (exits r failed) v =
    elim (get_elem? m.heap r)
      as (λ o. IsValid (elim o [ none ↦ m | some p ↦ (process_exited m p failed).0 ])) [
        | none ↦ v
        | some p ↦ exit-IsValid m p failed v
      ]
step-IsValid m (restarts r launched now) v =
    elim (get_elem? m.heap r)
      as (λ o. IsValid (elim o [ none ↦ m | some p ↦ restart_process m p launched now ])) [
        | none ↦ v
        | some p ↦
            unfold restart_process in
            start-IsValid m p.id p.command p.restart p.close_after launched now v
      ]
step-IsValid m (checks now) v = (check_inactive_processes-exact m now v).0
step-IsValid m stops_all v = unfold stop_all in stop_ids-IsValid (keys m.processes.entries) m v

pub new_manager-IsValid : IsValid new_manager
unfolding new_manager GoMap.empty GoMap.get GoMap.lookup
new_manager-IsValid = record {
  distinct = tt;
  listed = λ id r e. absurd (ground (arith, get-empty {V = ℕ} id));
}

pub run-IsValid : (m : Manager) (es : List Event) → IsValid m → IsValid (run m es)
unfolding run
run-IsValid m [] v = v
run-IsValid m (e ∷ es) v = run-IsValid (step m e) es (step-IsValid m e v)
