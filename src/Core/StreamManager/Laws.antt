-- ===== src/Core/StreamManager/Laws.antt =====
-- The manager's map against its heap: every key of the map leads to an open stream of that name.
use media_stream.Base.{
  ℕ, ◌≡◌, ◌≢◌, refl, ◌∙◌, String, true, false, none, some, List, [], ◌∷◌, ◌++◌, arith, str_eq,
  eq_iff, if◌then◌else◌, length, get_elem?, set, get_elem?-some_lt, get_elem?-append_left,
  get_elem?-append_length, get_elem?-set_self, get_elem?-set_ne, ok, err, subst, inl, inr,
  Bool-cases, ◌↔◌,
}
use media_stream.GoMap
use media_stream.GoMap.{KeysDistinct, put-KeysDistinct, remove-KeysDistinct, get-put, get-remove}
use media_stream.Core.Stream.{
  Stream, Packet, new_stream, shut, write_packet, rejected, stream_closed,
}
use media_stream.Core.StreamManager.{
  StreamManager, stream_exists, stream_not_found, create_stream, get_stream, remove_stream,
}

-- The pointer leads to an open stream with that id.
pub record Managed (heap : List Stream) (id : String) (r : ℕ) : Type 0 where
  pub stream : Stream
  pub at : get_elem? heap r ≡ some stream
  pub named : stream.id ≡ id
  pub not_closed : stream.closed ≡ false
  pub buffer_open : stream.packet_buffer.closed ≡ false

pub record IsValid (m : StreamManager) : Type 0 where
  pub distinct : KeysDistinct m.streams.entries
  pub managed : (id : String) (r : ℕ) → GoMap.get m.streams id ≡ some r → Managed m.heap id r

-- Two keys never share a stream.
pub Managed-injective :
    (heap : List Stream) (j k : String) (r : ℕ) → Managed heap j r → Managed heap k r → j ≡ k
Managed-injective heap j k r a b = ground arith

-- Nor does a key lead where another key leads.
pub other_stream :
    (m : StreamManager) (j k : String) (r i : ℕ)
    → IsValid m
    → GoMap.get m.streams j ≡ some r
    → GoMap.get m.streams k ≡ some i
    → str_eq j k ≡ false
    → r ≢ i
other_stream m j k r i v h e q p =
    let same = subst (Managed m.heap j) p (v.managed j r h) in
    ground (arith, Managed-injective m.heap j k i same (v.managed k i e), eq_iff j k)

Managed-append :
    (heap : List Stream) (s : Stream) (id : String) (r : ℕ)
    → Managed heap id r
    → Managed (heap ++ s ∷ []) id r
Managed-append heap s id r a = record {
  stream = a.stream;
  at = get_elem?-append_left heap (s ∷ []) r a.at;
  named = a.named;
  not_closed = a.not_closed;
  buffer_open = a.buffer_open;
}

pub Managed-set_ne :
    (heap : List Stream) (s : Stream) (i : ℕ) (id : String) (r : ℕ)
    → i ≢ r
    → Managed heap id r
    → Managed (set heap i s) id r
Managed-set_ne heap s i id r h a = record {
  stream = a.stream;
  at = get_elem?-set_ne heap i r s h ∙ a.at;
  named = a.named;
  not_closed = a.not_closed;
  buffer_open = a.buffer_open;
}

Managed-new :
    (heap : List Stream) (id name : String) (n : ℕ)
    → Managed (heap ++ new_stream id name n ∷ []) id (length heap)
Managed-new heap id name n = record {
  stream = new_stream id name n;
  at = get_elem?-append_length heap (new_stream id name n);
  named = unfold new_stream in refl;
  not_closed = unfold new_stream in refl;
  buffer_open = unfold new_stream in refl;
}

-- The manager with a stream that was not there before.
abbrev pub with_stream : StreamManager → String → String → StreamManager
with_stream m id name = record m {
  heap = m.heap ++ new_stream id name m.video_buffer_size ∷ [];
  streams = GoMap.put m.streams id (length m.heap);
}

pub with_stream-IsValid :
    (m : StreamManager) (id name : String) → IsValid m → IsValid (with_stream m id name)
with_stream-IsValid m id name v = record {
  distinct = put-KeysDistinct m.streams id (length m.heap) v.distinct;
  managed = λ k r e. elim (Bool-cases (str_eq id k)) [
    | inl q ↦
        subst (λ j. Managed (with_stream m id name).heap j r) ((eq_iff id k).0 q)
          (subst (Managed (with_stream m id name).heap id)
            (ground (arith, q, get-put m.streams id k (length m.heap)))
            (Managed-new m.heap id name m.video_buffer_size))
    | inr q ↦
        Managed-append m.heap (new_stream id name m.video_buffer_size) k r
          (v.managed k r (ground (arith, q, get-put m.streams id k (length m.heap))))
  ];
}

-- CreateStream with an id that the manager does not have returns a new stream: the id then leads to
-- it, every other id leads where it did, and no stream that was there has changed.
pub create_stream-new :
    (m : StreamManager) (id name : String)
    → IsValid m
    → GoMap.get m.streams id ≡ none
    → (m' : StreamManager) × (r : ℕ) × (create_stream m id name ≡ ok (m', r))
      × IsValid m'
      × (get_elem? m'.heap r ≡ some (new_stream id name m.video_buffer_size))
      × ((k : String) → get_stream m' k ≡ (if str_eq id k then ok r else get_stream m k))
      × ((i : ℕ) (s : Stream) → get_elem? m.heap i ≡ some s → get_elem? m'.heap i ≡ some s)
create_stream-new m id name v h = (
  with_stream m id name,
  length m.heap,
  unfold create_stream in rw (h, create_stream) refl,
  with_stream-IsValid m id name v,
  get_elem?-append_length m.heap (new_stream id name m.video_buffer_size),
  λ k. unfold get_stream in ground (arith, get-put m.streams id k (length m.heap)),
  λ i s. get_elem?-append_left m.heap _ i,
)

-- The manager without a stream that was there.
abbrev pub without_stream : StreamManager → String → ℕ → Stream → StreamManager
without_stream m id r s = record m {
  heap = set m.heap r (shut s);
  streams = GoMap.remove m.streams id;
}

pub without_stream-IsValid :
    (m : StreamManager) (id : String) (r : ℕ) (s : Stream)
    → IsValid m
    → GoMap.get m.streams id ≡ some r
    → IsValid (without_stream m id r s)
without_stream-IsValid m id r s v h = record {
  distinct = remove-KeysDistinct m.streams id v.distinct;
  managed = λ k i e. elim (Bool-cases (str_eq id k)) [
    | inl q ↦ absurd (ground (arith, q, get-remove m.streams id k))
    | inr q ↦
        let here : GoMap.get m.streams k ≡ some i = ground (arith, q, get-remove m.streams id k) in
        Managed-set_ne m.heap (shut s) r k i (other_stream m id k r i v h here q)
          (v.managed k i here)
  ];
}

-- RemoveStream of an id that the manager has does not panic. The id then leads nowhere, every other
-- id leads where it did, and whoever still holds the stream's pointer finds it closed: WritePacket
-- returns the error and changes nothing. No other stream has changed.
pub remove_stream-shut :
    (m : StreamManager) (id : String) (r : ℕ)
    → IsValid m
    → GoMap.get m.streams id ≡ some r
    → (m' : StreamManager) × (s : Stream) × (remove_stream m id ≡ some (ok m'))
      × IsValid m'
      × ((k : String)
          → get_stream m' k ≡ (if str_eq id k then err (stream_not_found k) else get_stream m k))
      × (get_elem? m'.heap r ≡ some s)
      × ((p : Packet) → write_packet s p ≡ rejected stream_closed s)
      × ((i : ℕ) → r ≢ i → get_elem? m'.heap i ≡ get_elem? m.heap i)
remove_stream-shut m id r v h =
    let a = v.managed id r h in
    (
      without_stream m id r a.stream,
      shut a.stream,
      unfold remove_stream in rw (h, remove_stream) (ground (arith, a)),
      without_stream-IsValid m id r a.stream v h,
      λ k. unfold get_stream in ground (arith, get-remove m.streams id k),
      get_elem?-set_self m.heap r (shut a.stream) (get_elem?-some_lt m.heap r a.at),
      λ p. unfold write_packet shut in refl,
      λ i ne. get_elem?-set_ne m.heap r i (shut a.stream) ne,
    )

-- Without the id, RemoveStream and GetStream return the error, and CreateStream returns its error
-- exactly where there is a stream of that id.
missing_or_present :
    (m : StreamManager) (id name : String)
    → (GoMap.get m.streams id ≡ none
        → (remove_stream m id ≡ some (err (stream_not_found id)))
          × (get_stream m id ≡ err (stream_not_found id)))
      × ((create_stream m id name ≡ err (stream_exists id)) ↔ (GoMap.contains m.streams id ≡ true))
missing_or_present m id name = (
  λ h. (
    unfold remove_stream in rw (h, remove_stream) refl,
    unfold get_stream in rw (h, get_stream) refl,
  ),
  unfold create_stream in (λ h. ground arith, λ h. ground arith),
)
