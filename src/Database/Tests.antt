-- ===== src/Database/Tests.antt =====
-- The theorem on the repository, at a table in memory with one stream.
use media_stream.Base.{
  ◌≡◌, String, Bool, true, false, none, some, [], ◌∷◌, str_eq, if◌then◌else◌, is_some, ok, err,
}
use media_stream.GoMap.{GoMap}
use media_stream.Database.{StreamRow, create, find, modify, erase, row_exists, no_stream}
use media_stream.Database.Contract.{merge, stamp, repository_refines}
use media_stream.Database.Table.{table, table_laws}

abbrev gate_row : StreamRow
gate_row = record {
  id = "gate";
  name = "Gate";
  source = "rtsp://10.0.0.5/live";
  source_on_demand = false;
  rtsp_transport = "tcp";
  created_at = 5;
  updated_at = 5;
}

abbrev hall_row : StreamRow
hall_row = record gate_row { id = "hall"; name = "Hall" }

abbrev one_row : GoMap StreamRow
one_row = record { entries = ("gate", gate_row) ∷ [] }

abbrev two_rows : GoMap StreamRow
two_rows = record { entries = ("hall", stamp 9 hall_row) ∷ ("gate", gate_row) ∷ [] }

repository_refines_example :
    (create table one_row hall_row 9 ≡ ok two_rows
      → (table_laws.row one_row "hall" ≡ none)
        × ((k : String)
            → table_laws.row two_rows k
              ≡ (if str_eq "hall" k then some (stamp 9 hall_row) else table_laws.row one_row k)))
    × (find table one_row "gate" ≡ ok hall_row → table_laws.row one_row "gate" ≡ some hall_row)
    × (find table one_row "gate" ≡ err (no_stream "gate") → table_laws.row one_row "gate" ≡ none)
    × (modify table one_row hall_row 9 ≡ ok two_rows
        → (old : StreamRow) × (table_laws.row one_row "hall" ≡ some old)
          × ((k : String)
              → table_laws.row two_rows k ≡ (
                  if str_eq "hall" k
                  then some (merge (record hall_row { updated_at = 9 }) old)
                  else table_laws.row one_row k)))
    × (erase table one_row "gate" ≡ ok two_rows
        → (is_some (table_laws.row one_row "gate") ≡ true)
          × ((k : String)
              → table_laws.row two_rows k
                ≡ (if str_eq "gate" k then none else table_laws.row one_row k)))
    × ((b : Bool)
        → row_exists table one_row "gate" ≡ ok b
        → b ≡ is_some (table_laws.row one_row "gate"))
repository_refines_example = repository_refines table table_laws one_row two_rows hall_row "gate" 9
