-- ===== src/Process/Monitor.antt =====
-- monitorProcess against Start and Stop: what happens when a process with `restart` crashes, and
-- when one is stopped.
use media_stream.Base.{
  ℕ, ◌≡◌, refl, String, Bool, true, false, none, some, arith, length, get_elem?, ok,
  get_elem?-append_length, eq_refl, subst, ◌∙◌,
}
use media_stream.Base.Int.{ℤ}
use media_stream.GoMap
use media_stream.GoMap.{get-remove, get-put}
use media_stream.Process.{
  Process, Manager, has_process, launch, is_running, start, stop, logged, process_exited,
  restart_process,
}
use media_stream.Process.Listing.{
  IsValid, is_running-absent, without_process, with_process, stop-present, start-launched,
}
use media_stream.Process.Inactivity.{kill}

pub named_so :
    (m : Manager) (id : String) (r : ℕ) (p : Process)
    → IsValid m
    → GoMap.get m.processes id ≡ some r
    → get_elem? m.heap r ≡ some p
    → p.id ≡ id
named_so m id r p v h e = let a = v.listed id r h in ground (arith, a.named, a.at)

with_process-running :
    (m : Manager) (p : Process) → has_process p ≡ true → is_running (with_process m p) p.id ≡ true
unfolding is_running
with_process-running m p l =
    rw
      (
        get-put m.processes p.id p.id (length m.heap),
        eq_refl p.id,
        get_elem?-append_length m.heap p,
        is_running,
      )
      l

pub gone : (m : Manager) (id : String) → GoMap.get (GoMap.remove m.processes id) id ≡ none
gone m id = get-remove m.processes id id ∙ rw (eq_refl id) refl

pub restart_process-absent :
    (m : Manager) (p : Process) (pid now : ℕ)
    → GoMap.get m.processes p.id ≡ none
    → restart_process m p (some pid) now
      ≡ with_process m (launch p.id p.command p.restart p.close_after pid now)
unfolding restart_process logged
restart_process-absent m p pid now h =
    rw (start-launched m p.id p.command p.restart p.close_after pid now h, restart_process) refl

-- Stop of a process with `restart` does not last: Stop kills it, so that it exits with an error,
-- and as Stop has taken the id off the map, its goroutine starts the command again.
stop_resurrects :
    (m : Manager) (id : String) (r : ℕ) (p : Process) (pid now : ℕ)
    → IsValid m
    → GoMap.get m.processes id ≡ some r
    → get_elem? m.heap r ≡ some p
    → p.restart ≡ true
    → (m' : Manager) × (stop m id ≡ ok m')
      × (is_running m' id ≡ false)
      × (process_exited m' (kill p) true ≡ (m', true))
      × (is_running (restart_process m' (kill p) (some pid) now) id ≡ true)
      × (get_elem? (restart_process m' (kill p) (some pid) now).heap (length m'.heap)
          ≡ some (launch id p.command true p.close_after pid now))
stop_resurrects m id r p pid now v h e t =
    let named = named_so m id r p v h e in
    let absent : GoMap.get (without_process m id r).processes p.id ≡ none = rw named (gone m id) in
    let m' = without_process m id r in
    let next = launch p.id p.command p.restart p.close_after pid now in
    let again = restart_process-absent (without_process m id r) (kill p) pid now absent in
    (
      without_process m id r,
      stop-present m id r h,
      is_running-absent _ id (gone m id),
      unfold process_exited in rw t refl,
      rw again (
          subst (λ k. is_running (with_process m' next) k ≡ true) named
            (with_process-running m' next refl)),
      rw (again, named, t)
          (get_elem?-append_length m'.heap (launch id p.command true p.close_after pid now)),
    )

-- If a process without `restart` is stopped and the id started anew before the old process's
-- goroutine is done, that goroutine takes the new process off the map: it runs on, but IsRunning
-- denies it and Stop does not find it.
late_exit_orphans :
    (m : Manager) (id command : String) (r : ℕ) (p : Process) (restart failed : Bool)
    (close_after : ℤ) (pid now : ℕ)
    → IsValid m
    → GoMap.get m.processes id ≡ some r
    → get_elem? m.heap r ≡ some p
    → p.restart ≡ false
    → (m' : Manager) × (m'' : Manager) × (stop m id ≡ ok m')
      × (start m' id command restart close_after (some pid) now ≡ ok m'')
      × (is_running m'' id ≡ true)
      × (is_running (process_exited m'' p failed).0 id ≡ false)
      × (get_elem? (process_exited m'' p failed).0.heap (length m'.heap)
          ≡ some (launch id command restart close_after pid now))
late_exit_orphans m id command r p restart failed close_after pid now v h e t =
    let named = named_so m id r p v h e in
    let next = launch id command restart close_after pid now in
    let m' = without_process m id r in
    let m'' = with_process m' next in
    let exit : (process_exited m'' p failed).0
        ≡ record m'' { processes = GoMap.remove m''.processes id } =
      unfold process_exited in rw (t, named) refl in
    (
      m',
      m'',
      stop-present m id r h,
      start-launched m' id command restart close_after pid now (gone m id),
      with_process-running m' next refl,
      rw exit (is_running-absent _ id (gone m'' id)),
      rw exit (get_elem?-append_length m'.heap next),
    )
