-- ===== src/Process/Crashes.antt =====
-- A crash of a process that is to be restarted, with what may happen during the sleep of its
-- monitorProcess.
use media_stream.Base.{
  ℕ, ◌≡◌, refl, String, Bool, true, false, Option, none, some, arith, length, get_elem?, ok, err,
  get_elem?-append_length, eq_refl, subst, sym, ◌∙◌, List, [], ◌∷◌, ◌&&◌, not, if◌then◌else◌,
  str_eq, eq_iff, inl, inr, Option-cases,
}
use media_stream.Base.Int.{ℤ}
use media_stream.GoMap
use media_stream.GoMap.{get-remove, get-put}
use media_stream.Process.{
  Process, Manager, already_running, launch, is_running, start, stop, logged, process_exited,
  restart_process,
}
use media_stream.Process.Listing.{IsValid, is_running-listed, without_process, stop-present}
use media_stream.Process.Inactivity.{overdue}
use media_stream.Process.Events.{
  Event, starts, stops, updates, exits, restarts, checks, stops_all, step, run, step-IsValid,
  run-IsValid,
}
use media_stream.Process.History.{entry_after, step-entry}
use media_stream.Process.Monitor.{named_so, gone, restart_process-absent}

restart-stopped :
    (m : Manager) (id : String) (r : ℕ) (p : Process) (pid now : ℕ)
    → GoMap.get m.processes id ≡ some r
    → p.id ≡ id
    → p.restart ≡ true
    → (m' : Manager) × (stop m id ≡ ok m')
      × (GoMap.get (restart_process m' p (some pid) now).processes id ≡ some (length m'.heap))
      × (get_elem? (restart_process m' p (some pid) now).heap (length m'.heap)
          ≡ some (launch id p.command true p.close_after pid now))
restart-stopped m id r p pid now h named t =
    let m' = without_process m id r in
    let absent : GoMap.get m'.processes p.id ≡ none = rw named (gone m id) in
    let again = restart_process-absent m' p pid now absent in
    (
      m',
      stop-present m id r h,
      rw (again, named) (get-put m'.processes id id (length m'.heap) ∙ rw (eq_refl id) refl),
      rw (again, named, t)
          (get_elem?-append_length m'.heap (launch id p.command true p.close_after pid now)),
    )

-- The event leaves the entry of `id` on the map: no Stop of it, no StopAll, no check that finds its
-- process overdue, and no exit of a process of that id but one that is to be restarted.
abbrev pub spares : Manager → String → Event → Bool
spares m id (starts k command restart close_after launched now) = true
spares m id (stops k now) = not (str_eq k id)
spares m id (updates k now) = true
spares m id (exits r failed) = elim (get_elem? m.heap r) [
  | none ↦ true
  | some p ↦ if p.restart && failed then true else not (str_eq p.id id)
]
spares m id (restarts r launched now) = true
spares m id (checks now) = elim (GoMap.get m.processes id) [
  | none ↦ true
  | some r ↦ elim (get_elem? m.heap r) [ none ↦ true | some p ↦ not (overdue now p) ]
]
spares m id stops_all = false

abbrev pub Spared : Manager → String → List Event → Type 0
Spared m id [] = Unit
Spared m id (e ∷ es) = (spares m id e ≡ true) × Spared (step m e) id es

spares-entry :
    (m : Manager) (id : String) (r : ℕ) (e : Event)
    → IsValid m
    → GoMap.get m.processes id ≡ some r
    → spares m id e ≡ true
    → entry_after m e id ≡ some r
spares-entry m id r (starts k command restart close_after launched now) v h s =
    ground (arith, h, eq_iff k id)
spares-entry m id r (stops k now) v h s = ground (arith, h)
spares-entry m id r (updates k now) v h s = h
spares-entry m id r (exits i failed) v h s = elim (Option-cases (get_elem? m.heap i)) [
  | inl e ↦ ground (arith, h, e)
  | inr (p, e) ↦ ground (arith, h, e)
]
spares-entry m id r (restarts i launched now) v h s = elim (Option-cases (get_elem? m.heap i)) [
  | inl e ↦ ground (arith, h, e)
  | inr (p, e) ↦ ground (arith, h, e, eq_iff p.id id)
]
spares-entry m id r (checks now) v h s = let a = v.listed id r h in ground (arith, h, a.at)
spares-entry m id r stops_all v h s = absurd (ground arith)

run_keeps_entry :
    (m : Manager) (id : String) (r : ℕ) (es : List Event)
    → IsValid m
    → GoMap.get m.processes id ≡ some r
    → Spared m id es
    → GoMap.get (run m es).processes id ≡ some r
unfolding run
run_keeps_entry m id r [] v h s = h
run_keeps_entry m id r (e ∷ es) v h s =
    run_keeps_entry (step m e) id r es (step-IsValid m e v)
      (step-entry m e id v ∙ spares-entry m id r e v h (s.0)) (s.1)

blocked-restart :
    (m : Manager) (id : String) (r : ℕ) (p : Process)
    → IsValid m
    → GoMap.get m.processes id ≡ some r
    → p.id ≡ id
    → p.restart ≡ true
    → ((launched : Option ℕ) (now : ℕ) → restart_process m p launched now ≡ m)
      × (is_running m id ≡ true)
      × ((command : String) (restart : Bool) (close_after : ℤ) (launched : Option ℕ) (now : ℕ)
          → start m id command restart close_after launched now ≡ err (already_running id))
      × ((pid now : ℕ)
          → (m' : Manager) × (stop m id ≡ ok m')
            × (GoMap.get (restart_process m' p (some pid) now).processes id ≡ some (length m'.heap))
            × (get_elem? (restart_process m' p (some pid) now).heap (length m'.heap)
                ≡ some (launch id p.command true p.close_after pid now)))
blocked-restart m id r p v h named t =
    let running = is_running-listed m id r v h in
    (
      λ launched now. unfold restart_process start logged in rw (named, running) refl,
      running,
      λ command restart close_after launched now. unfold start in rw running refl,
      λ pid now. restart-stopped m id r p pid now h named t,
    )

-- A process with `restart` that crashes blocks its own restart. Its exit with an error leaves it on
-- the map; and as long as nothing takes the id off the map (a Stop of it, a StopAll, the check when
-- it is overdue, or another exit), whatever else happens, the restart that follows the sleep is
-- refused and changes nothing, whatever a launch would give, the dead process counts as running, and
-- Start of its id fails. A Stop of the id makes way: a restart after it whose launch succeeds puts
-- the command's new process under the id.
pub crash_blocks_restart :
    (m : Manager) (id : String) (r : ℕ) (p : Process) (es : List Event)
    → IsValid m
    → GoMap.get m.processes id ≡ some r
    → get_elem? m.heap r ≡ some p
    → p.restart ≡ true
    → Spared (process_exited m p true).0 id es
    → ((launched : Option ℕ) (now : ℕ)
        → restart_process (run (process_exited m p true).0 es) p launched now
          ≡ run (process_exited m p true).0 es)
      × (is_running (run (process_exited m p true).0 es) id ≡ true)
      × ((command : String) (restart : Bool) (close_after : ℤ) (launched : Option ℕ) (now : ℕ)
          → start (run (process_exited m p true).0 es) id command restart close_after launched now
            ≡ err (already_running id))
      × ((pid now : ℕ)
          → (m' : Manager) × (stop (run (process_exited m p true).0 es) id ≡ ok m')
            × (GoMap.get (restart_process m' p (some pid) now).processes id ≡ some (length m'.heap))
            × (get_elem? (restart_process m' p (some pid) now).heap (length m'.heap)
                ≡ some (launch id p.command true p.close_after pid now)))
crash_blocks_restart m id r p es v h e t s =
    let m0 = (process_exited m p true).0 in
    let kept : m0 ≡ m = unfold process_exited in rw t refl in
    let w : IsValid m0 = subst IsValid (sym kept) v in
    let h0 : GoMap.get m0.processes id ≡ some r = rw kept h in
    blocked-restart (run m0 es) id r p (run-IsValid m0 es w) (run_keeps_entry m0 id r es w h0 s)
      (named_so m id r p v h e) t
