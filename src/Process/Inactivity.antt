-- ===== src/Process/Inactivity.antt =====
-- The loops that stop several processes: checkInactiveProcesses and StopAll.
use media_stream.Base.{
  ℕ, ◌-◌, ◌&&◌, ◌≡◌, ◌≢◌, refl, sym, ◌∙◌, String, Bool, true, false, Option, none, some, List, [],
  ◌∷◌, arith, str_eq, eq_iff, if◌then◌else◌, get_elem?, get_elem?-some_lt, get_elem?-set_self,
  get_elem?-set_ne, subst, inl, inr, Bool-cases, Option-cases, is_some,
}
use media_stream.Base.Int.{pos, ltb_ℤ}
use media_stream.GoMap
use media_stream.GoMap.{KeysDistinct, get-remove, lookup, get-lookup}
use media_stream.Process.{
  Process, Manager, stop, cancel, logged, stop_ids, to_stop, inactive_at, is_inactive, keys,
  check_inactive_processes, stop_all,
}
use media_stream.Process.Listing.{
  IsValid, other_process, without_process, stop-present, stop-absent, without_process-IsValid,
}

abbrev has_id : String → List String → Bool
has_id k [] = false
has_id k (id ∷ ids) = if str_eq id k then true else has_id k ids

-- cancelFunc has been called.
abbrev pub kill : Process → Process
kill p = record p { cancelled = true }

logged-stop-present :
    (m : Manager) (id : String) (r : ℕ)
    → GoMap.get m.processes id ≡ some r
    → logged m (stop m id) ≡ without_process m id r
unfolding logged
logged-stop-present m id r h = rw (stop-present m id r h) refl

logged-stop-absent :
    (m : Manager) (id : String) → GoMap.get m.processes id ≡ none → logged m (stop m id) ≡ m
unfolding logged
logged-stop-absent m id h = rw (stop-absent m id h) refl

logged-stop-IsValid : (m : Manager) (id : String) → IsValid m → IsValid (logged m (stop m id))
logged-stop-IsValid m id v = elim (Option-cases (GoMap.get m.processes id)) [
  | inl h ↦ rw (logged-stop-absent m id h) v
  | inr (r, h) ↦ rw (logged-stop-present m id r h) (without_process-IsValid m id r v)
]

pub logged-stop-get :
    (m : Manager) (id k : String)
    → GoMap.get (logged m (stop m id)).processes k
      ≡ (if str_eq id k then none else GoMap.get m.processes k)
logged-stop-get m id k = elim (Option-cases (GoMap.get m.processes id)) [
  | inl h ↦ rw (logged-stop-absent m id h) (ground (arith, eq_iff id k))
  | inr (r, h) ↦ rw (logged-stop-present m id r h) (get-remove m.processes id k)
]

cancel_self :
    (r : ℕ) (heap : List Process) (p : Process)
    → get_elem? heap r ≡ some p
    → get_elem? (cancel r heap) r ≡ some (kill p)
unfolding cancel
cancel_self r heap p h =
    rw (h, cancel) (get_elem?-set_self heap r (kill p) (get_elem?-some_lt heap r h))

cancel-ne : (r i : ℕ) (heap : List Process) → r ≢ i → get_elem? (cancel r heap) i ≡ get_elem? heap i
unfolding cancel
cancel-ne r i heap ne = elim (Option-cases (get_elem? heap r)) [
  | inl h ↦ rw (h, cancel) refl
  | inr (p, h) ↦ rw (h, cancel) (get_elem?-set_ne heap r i (kill p) ne)
]

pub stop_ids-IsValid : (ids : List String) (m : Manager) → IsValid m → IsValid (stop_ids ids m)
unfolding stop_ids
stop_ids-IsValid [] m v = v
stop_ids-IsValid (id ∷ ids) m v =
    stop_ids-IsValid ids (logged m (stop m id)) (logged-stop-IsValid m id v)

stop_ids-get :
    (ids : List String) (m : Manager) (k : String)
    → GoMap.get (stop_ids ids m).processes k
      ≡ (if has_id k ids then none else GoMap.get m.processes k)
unfolding stop_ids
stop_ids-get [] m k = refl
stop_ids-get (id ∷ ids) m k =
    ground (arith, stop_ids-get ids (logged m (stop m id)) k, logged-stop-get m id k)

-- A process that no key leads to is left alone.
stop_ids-unlisted :
    (ids : List String) (m : Manager) (r : ℕ)
    → ((k : String) → GoMap.get m.processes k ≢ some r)
    → get_elem? (stop_ids ids m).heap r ≡ get_elem? m.heap r
unfolding stop_ids
stop_ids-unlisted [] m r u = refl
stop_ids-unlisted (id ∷ ids) m r u = elim (Option-cases (GoMap.get m.processes id)) [
  | inl h ↦ rw (logged-stop-absent m id h, stop_ids) (stop_ids-unlisted ids m r u)
  | inr (i, h) ↦
      rw (logged-stop-present m id i h, stop_ids)
        (stop_ids-unlisted ids (without_process m id i) r
            (λ k e. u k (ground (arith, get-remove m.processes id k)))
          ∙ cancel-ne i r m.heap (λ s. u id (ground arith)))
]

logged-stop-heap :
    (m : Manager) (id k : String) (r : ℕ) (p : Process)
    → IsValid m
    → GoMap.get m.processes k ≡ some r
    → get_elem? m.heap r ≡ some p
    → get_elem? (logged m (stop m id)).heap r ≡ some (if str_eq id k then kill p else p)
logged-stop-heap m id k r p v h e = elim (Option-cases (GoMap.get m.processes id)) [
  | inl a ↦ rw (logged-stop-absent m id a) (ground (arith, eq_iff id k))
  | inr (i, a) ↦ elim (Bool-cases (str_eq id k)) [
    | inl q ↦
        let same : i ≡ r = ground (arith, eq_iff id k) in
        rw (logged-stop-present m id i a, q, same) (cancel_self r m.heap p e)
    | inr q ↦
        rw (logged-stop-present m id i a, q)
          (cancel-ne i r m.heap (other_process m id k i r v a h q) ∙ e)
  ]
]

-- Once the key of a process is off the map, no key leads to it.
logged-stop-unlisted :
    (m : Manager) (id : String) (r : ℕ)
    → IsValid m
    → GoMap.get m.processes id ≡ some r
    → (k : String) → GoMap.get (logged m (stop m id)).processes k ≢ some r
logged-stop-unlisted m id r v h k e = elim (Bool-cases (str_eq id k)) [
  | inl q ↦ ground (arith, logged-stop-get m id k)
  | inr q ↦
      let there : GoMap.get m.processes k ≡ some r = ground (arith, logged-stop-get m id k) in
      other_process m id k r r v h there q refl
]

stop_ids-heap :
    (ids : List String) (m : Manager) (k : String) (r : ℕ) (p : Process)
    → IsValid m
    → GoMap.get m.processes k ≡ some r
    → get_elem? m.heap r ≡ some p
    → get_elem? (stop_ids ids m).heap r ≡ some (if has_id k ids then kill p else p)
unfolding stop_ids
stop_ids-heap [] m k r p v h e = e
stop_ids-heap (id ∷ ids) m k r p v h e = elim (Bool-cases (str_eq id k)) [
  | inl q ↦
      let there : GoMap.get m.processes id ≡ some r = ground (arith, eq_iff id k) in
      rw q (
        stop_ids-unlisted ids (logged m (stop m id)) r (logged-stop-unlisted m id r v there)
        ∙ logged-stop-heap m id k r p v h e
        ∙ ground (arith, q))
  | inr q ↦ rw q (
      stop_ids-heap ids (logged m (stop m id)) k r p (logged-stop-IsValid m id v)
        (ground (arith, logged-stop-get m id k))
        (logged-stop-heap m id k r p v h e ∙ ground (arith, q)))
]

-- Whether checkInactiveProcesses stops what the key leads to.
abbrev stops : List Process → ℕ → Option ℕ → Bool
stops heap now none = false
stops heap now (some r) = inactive_at heap now r

has_id-to_stop :
    (heap : List Process) (now : ℕ) (k : String) (entries : List (String × ℕ))
    → KeysDistinct entries
    → has_id k (to_stop heap now entries) ≡ stops heap now (lookup k entries)
unfolding to_stop lookup
has_id-to_stop heap now k [] d = refl
has_id-to_stop heap now k ((id, r) ∷ entries) d = elim (Bool-cases (str_eq id k)) [
  | inl q ↦
      let gone : lookup k entries ≡ none =
        subst (λ j. lookup j entries ≡ none) ((eq_iff id k).0 q) d.0 in
      ground (arith, q, has_id-to_stop heap now k entries d.1)
  | inr q ↦ ground (arith, q, has_id-to_stop heap now k entries d.1)
]

has_id-keys :
    (k : String) (entries : List (String × ℕ))
    → has_id k (keys entries) ≡ is_some (lookup k entries)
unfolding keys lookup
has_id-keys k [] = refl
has_id-keys k ((id, r) ∷ entries) = ground (arith, has_id-keys k entries)

has_id-inactive :
    (m : Manager) (now : ℕ) (k : String) (r : ℕ) (p : Process)
    → IsValid m
    → GoMap.get m.processes k ≡ some r
    → get_elem? m.heap r ≡ some p
    → has_id k (to_stop m.heap now m.processes.entries) ≡ is_inactive now p
unfolding inactive_at
has_id-inactive m now k r p v h e =
    has_id-to_stop m.heap now k m.processes.entries v.distinct
    ∙ rw (sym (get-lookup m.processes k), h) (rw (e, inactive_at) refl)

-- A positive closeAfter, and more time than that since the last activity.
abbrev pub overdue : ℕ → Process → Bool
overdue now p = ltb_ℤ (pos 0) p.close_after && ltb_ℤ p.close_after (pos (now - p.last_activity))

is_inactive-overdue : (now : ℕ) (p : Process) → is_inactive now p ≡ overdue now p
unfolding is_inactive
is_inactive-overdue now p = ground arith

-- checkInactiveProcesses, for each process of a valid manager: if it has a positive closeAfter and
-- has been without activity for longer, it is killed and leaves the map; if not, it stays in the
-- map as it is. Ids that the map does not have stay absent, and the manager stays valid.
pub check_inactive_processes-exact :
    (m : Manager) (now : ℕ)
    → IsValid m
    → IsValid (check_inactive_processes m now)
      × ((k : String)
          → GoMap.get m.processes k ≡ none
          → GoMap.get (check_inactive_processes m now).processes k ≡ none)
      × ((k : String) (r : ℕ) (p : Process)
          → GoMap.get m.processes k ≡ some r
          → get_elem? m.heap r ≡ some p
          → (GoMap.get (check_inactive_processes m now).processes k
              ≡ (if overdue now p then none else some r))
            × (get_elem? (check_inactive_processes m now).heap r
                ≡ some (if overdue now p then kill p else p)))
unfolding check_inactive_processes
check_inactive_processes-exact m now v =
    let ids = to_stop m.heap now m.processes.entries in
    (
      stop_ids-IsValid ids m v,
      λ k h. stop_ids-get ids m k ∙ ground (arith, h),
      λ k r p h e. (
        stop_ids-get ids m k
            ∙ rw (has_id-inactive m now k r p v h e, is_inactive-overdue now p, h) refl,
        stop_ids-heap ids m k r p v h e
            ∙ rw (has_id-inactive m now k r p v h e, is_inactive-overdue now p) refl,
      ),
    )

-- StopAll of a valid manager kills every process that the map has and empties the map.
pub stop_all-empties :
    (m : Manager)
    → IsValid m
    → ((k : String) → GoMap.get (stop_all m).processes k ≡ none)
      × ((k : String) (r : ℕ) (p : Process)
          → GoMap.get m.processes k ≡ some r
          → get_elem? m.heap r ≡ some p
          → get_elem? (stop_all m).heap r ≡ some (kill p))
unfolding stop_all
stop_all-empties m v = (
  λ k.
      stop_ids-get (keys m.processes.entries) m k
      ∙ ground (arith, has_id-keys k m.processes.entries, get-lookup m.processes k),
  λ k r p h e.
      stop_ids-heap (keys m.processes.entries) m k r p v h e
      ∙ ground (arith, has_id-keys k m.processes.entries, get-lookup m.processes k),
)
