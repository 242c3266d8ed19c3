-- ===== src/Database.antt =====
-- go-legacy/internal/database/stream_repository.go: the repository of streams. The SQL engine is an
-- argument: what its statements return and leave. `none` is an error of the engine.
pub mod Contract
pub mod Table
pub mod Tests
use media_stream.Base.{
  ℕ, String, Bool, true, false, Option, none, some, List, [], ◌∷◌, ◌==◌, ltb, if◌then◌else◌, Result,
  ok, err,
}

-- Stream of the package database
pub record StreamRow : Type 0 where
  pub id : String
  pub name : String
  pub source : String
  pub source_on_demand : Bool
  pub rtsp_transport : String
  pub created_at : ℕ
  pub updated_at : ℕ

-- The statements that the repository executes, on a database in state S. An UPDATE sets the name,
-- the source, the two settings and updated_at of the row with the id; it and a DELETE return the
-- number of rows affected, and RowsAffected of the driver returns no error.
pub record SqlEngine (S : Type 0) : Type 0 where
  pub insert : S → StreamRow → Option S
  pub select : S → String → Option (Option StreamRow)
  pub select_all : S → Option (List StreamRow)
  pub update : S → StreamRow → Option (S × ℕ)
  pub delete : S → String → Option (S × ℕ)
  pub count_id : S → String → Option ℕ
  pub count_all : S → Option ℕ

pub data DbError : Type 0 where
  create_failed get_failed query_failed update_failed delete_failed check_failed : DbError
  no_stream : String → DbError

module _ {S : Type 0} (E : SqlEngine S) where
  -- Create; `now` is time.Now().
  unfoldable pub create : S → StreamRow → ℕ → Result DbError S
  create s r now = elim (E.insert s (record r { created_at = now; updated_at = now })) [
    | none ↦ err create_failed
    | some s' ↦ ok s'
  ]

  -- Get
  unfoldable pub find : S → String → Result DbError StreamRow
  find s id = elim (E.select s id) [
    | none ↦ err get_failed
    | some o ↦ elim o [ none ↦ err (no_stream id) | some r ↦ ok r ]
  ]

  -- List
  unfoldable pub list_all : S → Result DbError (List StreamRow)
  list_all s = elim (E.select_all s) [ none ↦ err query_failed | some rows ↦ ok rows ]

  -- The check of RowsAffected.
  unfoldable pub affected : DbError → String → Option (S × ℕ) → Result DbError S
  affected e id none = err e
  affected e id (some (s, n)) = if n == 0 then err (no_stream id) else ok s

  -- Update
  unfoldable pub modify : S → StreamRow → ℕ → Result DbError S
  unfolding affected
  modify s r now = affected update_failed r.id (E.update s (record r { updated_at = now }))

  -- Delete
  unfoldable pub erase : S → String → Result DbError S
  unfolding affected
  erase s id = affected delete_failed id (E.delete s id)

  -- Exists
  unfoldable pub row_exists : S → String → Result DbError Bool
  row_exists s id = elim (E.count_id s id) [ none ↦ err check_failed | some n ↦ ok (ltb 0 n) ]

  -- Count
  unfoldable pub row_count : S → Result DbError ℕ
  row_count s = elim (E.count_all s) [ none ↦ err check_failed | some n ↦ ok n ]
