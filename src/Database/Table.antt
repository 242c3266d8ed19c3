-- ===== src/Database/Table.antt =====
-- An engine that keeps the contract: a table in memory.
use media_stream.Base.{
  ℕ, ◌≡◌, refl, String, Option, none, some, List, [], ◌∷◌, arith, if◌then◌else◌, is_some,
}
use media_stream.GoMap
use media_stream.GoMap.{GoMap, get-put, get-remove}
use media_stream.Database.{StreamRow, SqlEngine}
use media_stream.Database.Contract.{SqlLaws, merge}

values : List (String × StreamRow) → List StreamRow
values [] = []
values ((id, r) ∷ rest) = r ∷ values rest

insert_row : Option StreamRow → GoMap StreamRow → StreamRow → Option (GoMap StreamRow)
insert_row none t r = some (GoMap.put t r.id r)
insert_row (some old) t r = none

update_row : Option StreamRow → GoMap StreamRow → StreamRow → Option (GoMap StreamRow × ℕ)
update_row none t r = some (t, 0)
update_row (some old) t r = some (GoMap.put t r.id (merge r old), 1)

count_row : Option StreamRow → ℕ
count_row o = if is_some o then 1 else 0

unfoldable pub table : SqlEngine (GoMap StreamRow)
unfolding values insert_row update_row count_row GoMap.get GoMap.put GoMap.remove
table = record {
  insert = λ t r. insert_row (GoMap.get t r.id) t r;
  select = λ t id. some (GoMap.get t id);
  select_all = λ t. some (values t.entries);
  update = λ t r. update_row (GoMap.get t r.id) t r;
  delete = λ t id. some (GoMap.remove t id, count_row (GoMap.get t id));
  count_id = λ t id. some (count_row (GoMap.get t id));
  count_all = λ t. some (GoMap.size t);
}

insert_row-fresh :
    (o : Option StreamRow) (t t' : GoMap StreamRow) (r : StreamRow)
    → insert_row o t r ≡ some t'
    → (o ≡ none) × (t' ≡ GoMap.put t r.id r)
unfolding insert_row
insert_row-fresh none t t' r h = (refl, ground arith)
insert_row-fresh (some old) t t' r h = absurd (ground arith)

update_row-count :
    (o : Option StreamRow) (t t' : GoMap StreamRow) (r : StreamRow) (n : ℕ)
    → update_row o t r ≡ some (t', n)
    → n ≡ (if is_some o then 1 else 0)
unfolding update_row
update_row-count none t t' r n h = ground arith
update_row-count (some old) t t' r n h = ground arith

update_row-present :
    (o : Option StreamRow) (t t' : GoMap StreamRow) (r old : StreamRow) (n : ℕ)
    → update_row o t r ≡ some (t', n)
    → o ≡ some old
    → t' ≡ GoMap.put t r.id (merge r old)
unfolding update_row
update_row-present none t t' r old n h e = absurd (ground arith)
update_row-present (some prior) t t' r old n h e =
    let same : prior ≡ old = ground arith in
    let written : t' ≡ GoMap.put t r.id (merge r prior) = ground arith in rw written (rw same refl)

removed :
    (s s' t : GoMap StreamRow) (n c : ℕ)
    → ◌≡◌ {A = Option (GoMap StreamRow × ℕ)} (some (t, c)) (some (s', n))
    → s' ≡ t
removed s s' t n c h = ground arith

pub table_laws : SqlLaws table
unfolding table count_row
table_laws = record {
  row = GoMap.get;
  select_row = λ s id o h. ground arith;
  insert_fresh = λ s s' r h. (insert_row-fresh (GoMap.get s r.id) s s' r h).0;
  insert_row =
      λ s s' r k h. rw ((insert_row-fresh (GoMap.get s r.id) s s' r h).1) (get-put s r.id k r);
  update_count = λ s s' r n h. update_row-count (GoMap.get s r.id) s s' r n h;
  update_row = λ s s' r old n k h o.
      rw (update_row-present (GoMap.get s r.id) s s' r old n h o) (get-put s r.id k (merge r old));
  delete_count = λ s s' id n h. ground arith;
  delete_row = λ s s' id k n h. rw (removed s s' (GoMap.remove s id) n _ h) (get-remove s id k);
  count_row = λ s id n h. ground arith;
}
