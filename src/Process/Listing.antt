-- ===== src/Process/Listing.antt =====
-- The manager's map against its heap, and Start and Stop on it.
use media_stream.Base.{
  ℕ, ◌≡◌, ◌≢◌, refl, sym, ◌∙◌, String, Bool, true, false, none, some, List, [], ◌∷◌, ◌++◌, arith,
  str_eq, eq_iff, length, get_elem?, set, get_elem?-some_lt, get_elem?-append_left,
  get_elem?-append_length, get_elem?-set_self, get_elem?-set_ne, ok, err, subst, inl, inr,
  Bool-cases, Option-cases, ◌==◌,
}
use media_stream.Base.Int.{ℤ}
use media_stream.GoMap
use media_stream.GoMap.{KeysDistinct, put-KeysDistinct, remove-KeysDistinct, get-put, get-remove}
use media_stream.Process.{
  Process, Manager, has_process, launch, is_running, start, stop, cancel, not_found,
}

-- The pointer leads to a launched process of that id.
pub record Listed (heap : List Process) (id : String) (r : ℕ) : Type 0 where
  pub process : Process
  pub at : get_elem? heap r ≡ some process
  pub named : process.id ≡ id
  pub launched : has_process process ≡ true

pub record IsValid (m : Manager) : Type 0 where
  pub distinct : KeysDistinct m.processes.entries
  pub listed : (id : String) (r : ℕ) → GoMap.get m.processes id ≡ some r → Listed m.heap id r

Listed-injective :
    (heap : List Process) (j k : String) (r : ℕ) → Listed heap j r → Listed heap k r → j ≡ k
Listed-injective heap j k r a b = ground arith

pub other_process :
    (m : Manager) (j k : String) (r i : ℕ)
    → IsValid m
    → GoMap.get m.processes j ≡ some r
    → GoMap.get m.processes k ≡ some i
    → str_eq j k ≡ false
    → r ≢ i
other_process m j k r i v h e q p =
    let same = subst (Listed m.heap j) p (v.listed j r h) in
    ground (arith, Listed-injective m.heap j k i same (v.listed k i e), eq_iff j k)

pub is_running-listed :
    (m : Manager) (id : String) (r : ℕ)
    → IsValid m
    → GoMap.get m.processes id ≡ some r
    → is_running m id ≡ true
unfolding is_running
is_running-listed m id r v h = let a = v.listed id r h in rw (h, a.at, is_running) a.launched

pub is_running-absent :
    (m : Manager) (id : String) → GoMap.get m.processes id ≡ none → is_running m id ≡ false
unfolding is_running
is_running-absent m id h = rw (h, is_running) refl

Listed-append :
    (heap : List Process) (p : Process) (id : String) (r : ℕ)
    → Listed heap id r
    → Listed (heap ++ p ∷ []) id r
Listed-append heap p id r a = record {
  process = a.process;
  at = get_elem?-append_left heap (p ∷ []) r a.at;
  named = a.named;
  launched = a.launched;
}

Listed-new :
    (heap : List Process) (p : Process)
    → has_process p ≡ true
    → Listed (heap ++ p ∷ []) p.id (length heap)
Listed-new heap p h = record {
  process = p;
  at = get_elem?-append_length heap p;
  named = refl;
  launched = h;
}

-- The manager with a process more.
abbrev pub with_process : Manager → Process → Manager
with_process m p = record {
  heap = m.heap ++ p ∷ [];
  processes = GoMap.put m.processes p.id (length m.heap);
}

pub with_process-IsValid :
    (m : Manager) (p : Process) → has_process p ≡ true → IsValid m → IsValid (with_process m p)
with_process-IsValid m p h v = record {
  distinct = put-KeysDistinct m.processes p.id (length m.heap) v.distinct;
  listed = λ k r e. elim (Bool-cases (str_eq p.id k)) [
    | inl q ↦
        subst (λ j. Listed (with_process m p).heap j r) ((eq_iff p.id k).0 q)
          (subst (Listed (with_process m p).heap p.id)
            (ground (arith, q, get-put m.processes p.id k (length m.heap))) (Listed-new m.heap p h))
    | inr q ↦
        Listed-append m.heap p k r
          (v.listed k r (ground (arith, q, get-put m.processes p.id k (length m.heap))))
  ];
}

-- Start of an id that the map does not have, where the launch succeeds.
pub start-launched :
    (m : Manager) (id command : String) (restart : Bool) (close_after : ℤ) (pid now : ℕ)
    → GoMap.get m.processes id ≡ none
    → start m id command restart close_after (some pid) now
      ≡ ok (with_process m (launch id command restart close_after pid now))
unfolding start
start-launched m id command restart close_after pid now h =
    rw (is_running-absent m id h, start) refl

-- A write of a process with the same name keeps what is listed.
pub Listed-set :
    (heap : List Process) (r : ℕ) (p q : Process) (id : String) (i : ℕ)
    → get_elem? heap r ≡ some p
    → q.id ≡ p.id
    → has_process q ≡ has_process p
    → Listed heap id i
    → Listed (set heap r q) id i
Listed-set heap r p q id i e n h a = elim (Bool-cases (r == i)) [
  | inl s ↦
      let same : r ≡ i = ground arith in
      let read : get_elem? heap r ≡ some a.process =
        subst (λ k. get_elem? heap k ≡ some a.process) (sym same) a.at in
      subst (Listed (set heap r q) id) same (record {
        process = q;
        at = get_elem?-set_self heap r q (get_elem?-some_lt heap r e);
        named = ground (arith, a.named, read);
        launched = ground (arith, a.launched, read);
      })
  | inr s ↦ record {
    process = a.process;
    at = get_elem?-set_ne heap r i q (λ same. ground arith) ∙ a.at;
    named = a.named;
    launched = a.launched;
  }
]

cancel-Listed :
    (heap : List Process) (r : ℕ) (id : String) (i : ℕ)
    → Listed heap id i
    → Listed (cancel r heap) id i
unfolding cancel
cancel-Listed heap r id i a = elim (Option-cases (get_elem? heap r)) [
  | inl h ↦ rw (h, cancel) a
  | inr (p, h) ↦
      rw (h, cancel) (Listed-set heap r p (record p { cancelled = true }) id i h refl refl a)
]

-- The manager without the process at `id`, which is killed.
abbrev pub without_process : Manager → String → ℕ → Manager
without_process m id r = record { heap = cancel r m.heap; processes = GoMap.remove m.processes id }

pub stop-present :
    (m : Manager) (id : String) (r : ℕ)
    → GoMap.get m.processes id ≡ some r
    → stop m id ≡ ok (without_process m id r)
unfolding stop
stop-present m id r h = rw (h, stop) refl

pub stop-absent :
    (m : Manager) (id : String) → GoMap.get m.processes id ≡ none → stop m id ≡ err (not_found id)
unfolding stop
stop-absent m id h = rw (h, stop) refl

pub unlisted-IsValid :
    (m : Manager) (id : String)
    → IsValid m
    → IsValid (record m { processes = GoMap.remove m.processes id })
unlisted-IsValid m id v = record {
  distinct = remove-KeysDistinct m.processes id v.distinct;
  listed = λ k i e. v.listed k i (ground (arith, get-remove m.processes id k));
}

pub without_process-IsValid :
    (m : Manager) (id : String) (r : ℕ) → IsValid m → IsValid (without_process m id r)
without_process-IsValid m id r v = record {
  distinct = remove-KeysDistinct m.processes id v.distinct;
  listed = λ k i e.
      cancel-Listed m.heap r k i (v.listed k i (ground (arith, get-remove m.processes id k)));
}
