-- ===== src/Core/Channel.antt =====
-- Go's buffered channels, as the streams use them: a `select` with a `default` case sends or
-- receives at once or not at all, and a send on a closed channel panics.
use media_stream.Base.{
  ℕ, ◌≤◌, ◌<◌, ◌≡◌, Bool, true, false, List, [], ◌∷◌, ◌++◌, arith, ltb, if◌then◌else◌, length,
  length-append,
}

pub record Chan (A : Type 0) : Type 0 where
  pub cap : ℕ
  pub items : List A
  pub closed : Bool

pub data Send (A : Type 0) : Type 0 where
  sent : Chan A → Send A
  full : Send A
  panicked : Send A

pub data Recv (A : Type 0) : Type 0 where
  received : A → Chan A → Recv A
  drained : Recv A
  waiting : Recv A

module _ {A : Type 0} where
  -- make(chan A, n)
  abbrev pub make : ℕ → Chan A
  make n = record { cap = n; items = []; closed = false }

  -- select { case c <- a: … default: … }
  unfoldable pub try_send : Chan A → A → Send A
  try_send c a =
      if c.closed
      then panicked
      else if ltb (length c.items) c.cap
      then sent (record c { items = c.items ++ a ∷ [] })
      else full

  unfoldable pub recv_from : Chan A → List A → Recv A
  recv_from c [] = if c.closed then drained else waiting
  recv_from c (a ∷ rest) = received a (record c { items = rest })

  -- a, ok := <-c, where `waiting` stands for a receive that blocks and `drained` for ok = false
  unfoldable pub try_recv : Chan A → Recv A
  unfolding recv_from
  try_recv c = recv_from c c.items

  -- close(c)
  abbrev pub close : Chan A → Chan A
  close c = record c { closed = true }

  abbrev pub IsBounded : Chan A → Type 0
  IsBounded c = length c.items ≤ c.cap

  pub try_send-room :
      (c : Chan A) (a : A)
      → c.closed ≡ false
      → length c.items < c.cap
      → try_send c a ≡ sent (record c { items = c.items ++ a ∷ [] })
  unfolding try_send
  try_send-room c a o h = ground arith

  pub try_send-full :
      (c : Chan A) (a : A) → c.closed ≡ false → c.cap ≤ length c.items → try_send c a ≡ full
  unfolding try_send
  try_send-full c a o h = ground arith

  pub try_send-closed : (c : Chan A) (a : A) → c.closed ≡ true → try_send c a ≡ panicked
  unfolding try_send
  try_send-closed c a h = ground arith

  pub try_send-IsBounded :
      (c d : Chan A) (a : A) → try_send c a ≡ sent d → (length d.items ≤ d.cap) × (d.cap ≡ c.cap)
  unfolding try_send
  try_send-IsBounded c d a h = ground (arith, length-append c.items (a ∷ []))
