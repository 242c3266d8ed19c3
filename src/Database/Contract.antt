-- ===== src/Database/Contract.antt =====
-- What the repository relies on in the SQL engine, and what the repository then promises.
use media_stream.Base.{
  ℕ, ◌≡◌, String, Bool, true, false, Option, none, some, arith, str_eq, if◌then◌else◌, ◌==◌,
  is_some, ok, err, Option-cases, inl, inr,
}
use media_stream.Database.{
  StreamRow, SqlEngine, create, find, modify, erase, affected, row_exists, no_stream,
}

-- What an UPDATE makes of a row.
abbrev pub merge : StreamRow → StreamRow → StreamRow
merge new old = record new { created_at = old.created_at }

-- What Create makes of its argument.
abbrev pub stamp : ℕ → StreamRow → StreamRow
stamp now r = record r { created_at = now; updated_at = now }

-- The table as a partial function of the primary key, and what each statement does to it when the
-- engine reports no error.
pub record SqlLaws {S : Type 0} (E : SqlEngine S) : Type 0 where
  pub row : S → String → Option StreamRow
  pub select_row :
      (s : S) (id : String) (o : Option StreamRow) → E.select s id ≡ some o → o ≡ row s id
  pub insert_fresh : (s s' : S) (r : StreamRow) → E.insert s r ≡ some s' → row s r.id ≡ none
  pub insert_row :
      (s s' : S) (r : StreamRow) (k : String)
      → E.insert s r ≡ some s'
      → row s' k ≡ (if str_eq r.id k then some r else row s k)
  pub update_count :
      (s s' : S) (r : StreamRow) (n : ℕ)
      → E.update s r ≡ some (s', n)
      → n ≡ (if is_some (row s r.id) then 1 else 0)
  pub update_row :
      (s s' : S) (r old : StreamRow) (n : ℕ) (k : String)
      → E.update s r ≡ some (s', n)
      → row s r.id ≡ some old
      → row s' k ≡ (if str_eq r.id k then some (merge r old) else row s k)
  pub delete_count :
      (s s' : S) (id : String) (n : ℕ)
      → E.delete s id ≡ some (s', n)
      → n ≡ (if is_some (row s id) then 1 else 0)
  pub delete_row :
      (s s' : S) (id k : String) (n : ℕ)
      → E.delete s id ≡ some (s', n)
      → row s' k ≡ (if str_eq id k then none else row s k)
  pub count_row :
      (s : S) (id : String) (n : ℕ)
      → E.count_id s id ≡ some n
      → n ≡ (if is_some (row s id) then 1 else 0)

module _ {S : Type 0} (E : SqlEngine S) (L : SqlLaws E) where
  pub create-row :
      (s s' : S) (r : StreamRow) (now : ℕ)
      → create E s r now ≡ ok s'
      → (L.row s r.id ≡ none)
        × ((k : String) → L.row s' k ≡ (if str_eq r.id k then some (stamp now r) else L.row s k))
  unfolding create
  create-row s s' r now h = elim (Option-cases (E.insert s (stamp now r))) [
    | inl e ↦ absurd (ground arith)
    | inr (t, e) ↦
        let e' : E.insert s (stamp now r) ≡ some s' = ground arith in
        (L.insert_fresh s s' (stamp now r) e', λ k. L.insert_row s s' (stamp now r) k e')
  ]

  pub find-row : (s : S) (id : String) (r : StreamRow) → find E s id ≡ ok r → L.row s id ≡ some r
  unfolding find
  find-row s id r h = elim (Option-cases (E.select s id)) [
    | inl e ↦ absurd (ground arith)
    | inr (o, e) ↦ ground (arith, Option-cases o, L.select_row s id o e)
  ]

  pub find-absent : (s : S) (id : String) → find E s id ≡ err (no_stream id) → L.row s id ≡ none
  unfolding find
  find-absent s id h = elim (Option-cases (E.select s id)) [
    | inl e ↦ absurd (ground arith)
    | inr (o, e) ↦ ground (arith, Option-cases o, L.select_row s id o e)
  ]

  pub modify-row :
      (s s' : S) (r : StreamRow) (now : ℕ)
      → modify E s r now ≡ ok s'
      → (old : StreamRow) × (L.row s r.id ≡ some old)
        × ((k : String)
            → L.row s' k ≡ (
                if str_eq r.id k
                then some (merge (record r { updated_at = now }) old)
                else L.row s k))
  unfolding modify affected
  modify-row s s' r now h =
      let new = record r { updated_at = now } in
      elim (Option-cases (E.update s new)) [
        | inl e ↦ absurd (ground arith)
        | inr ((t, n), e) ↦
            let e' : E.update s new ≡ some (s', n) = ground arith in
            let n_pos : (n == 0) ≡ false = ground arith in
            elim (Option-cases (L.row s r.id)) [
              | inl o ↦ absurd (ground (arith, L.update_count s s' new n e'))
              | inr (old, o) ↦ (old, o, λ k. L.update_row s s' new old n k e' o)
            ]
      ]

  pub erase-row :
      (s s' : S) (id : String)
      → erase E s id ≡ ok s'
      → (is_some (L.row s id) ≡ true)
        × ((k : String) → L.row s' k ≡ (if str_eq id k then none else L.row s k))
  unfolding erase affected
  erase-row s s' id h = elim (Option-cases (E.delete s id)) [
    | inl e ↦ absurd (ground arith)
    | inr ((t, n), e) ↦
        let e' : E.delete s id ≡ some (s', n) = ground arith in
        (ground (arith, L.delete_count s s' id n e'), λ k. L.delete_row s s' id k n e')
  ]

  exists-row :
      (s : S) (id : String) (b : Bool) → row_exists E s id ≡ ok b → b ≡ is_some (L.row s id)
  unfolding row_exists
  exists-row s id b h = elim (Option-cases (E.count_id s id)) [
    | inl e ↦ absurd (ground arith)
    | inr (n, e) ↦ ground (arith, L.count_row s id n e)
  ]

  -- Over an engine that keeps the primary key, the repository is a partial function from ids to
  -- streams. What returns no error does this: Create adds a stream under an id that had none, with
  -- both times set, and changes no other; Get returns the stream of the id; Update replaces the
  -- stream of an id that had one, all but its creation time, and changes no other; Delete takes
  -- away the stream of an id that had one, and no other; Exists says whether the id has one. And
  -- where Get reports that the id is not found, it has none.
  pub repository_refines :
      (s s' : S) (r : StreamRow) (id : String) (now : ℕ)
      → (create E s r now ≡ ok s'
          → (L.row s r.id ≡ none)
            × ((k : String)
                → L.row s' k ≡ (if str_eq r.id k then some (stamp now r) else L.row s k)))
        × (find E s id ≡ ok r → L.row s id ≡ some r)
        × (find E s id ≡ err (no_stream id) → L.row s id ≡ none)
        × (modify E s r now ≡ ok s'
            → (old : StreamRow) × (L.row s r.id ≡ some old)
              × ((k : String)
                  → L.row s' k ≡ (
                      if str_eq r.id k
                      then some (merge (record r { updated_at = now }) old)
                      else L.row s k)))
        × (erase E s id ≡ ok s'
            → (is_some (L.row s id) ≡ true)
              × ((k : String) → L.row s' k ≡ (if str_eq id k then none else L.row s k)))
        × ((b : Bool) → row_exists E s id ≡ ok b → b ≡ is_some (L.row s id))
  repository_refines s s' r id now = (
    create-row s s' r now,
    find-row s id r,
    find-absent s id,
    modify-row s s' r now,
    erase-row s s' id,
    exists-row s id,
  )
