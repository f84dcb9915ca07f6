-- ===== src/Serving/Results.antt =====
-- What results.csv holds after many connections.
use quic_hop.Base.{
  ℕ, ◌+◌, List, [], ◌∷◌, ◌++◌, Bool, true, false, Option, none, some, if◌then◌else◌,
}
use quic_hop.Floats.{Floats}
use quic_hop.Task.Server.{Figures}
use quic_hop.Task.Run.{Halt, finished, aborted, crashed, unending, waiting}
use quic_hop.Report.{no_errors, TaskResult, csv_line, csv_header, result_record}
use quic_hop.Serving.{
  Handling, returned, failed, panicked, blocked, Connection, Server, handle_conn, outcome_of,
  task_result,
}

unfoldable pub goes_on : Handling → Bool
goes_on returned = true
goes_on failed = true
goes_on panicked = false
goes_on blocked = false

module _ (f : Floats) (slot_ms : ℕ) where
  -- A slot duration and a result.
  abbrev pub Entry : Type 0
  Entry = ℕ × TaskResult f

  abbrev pub rows : List Entry → List ℕ
  rows [] = []
  rows (e ∷ entries) = csv_line (result_record f e.0 e.1) ++ rows entries

  -- One connection after the other, without errors of the file; a panic ends the process, and a
  -- handler that waits for its peer keeps the next connection waiting.
  unfoldable pub handle_all : List (Connection f) → Server → Server
  handle_all [] s = s
  handle_all (c ∷ later) s =
      let next = handle_conn f no_errors slot_ms c s in
      let rest = handle_all later next.1 in if goes_on next.0 then rest else next.1

  -- The result of a task that finished.
  abbrev pub entries_of : ℕ → Connection f → Halt (ℕ × Figures f) → List (Entry)
  entries_of id c (finished (kind, figures)) = (slot_ms, task_result f id c kind figures) ∷ []
  entries_of id c (aborted why) = []
  entries_of id c crashed = []
  entries_of id c unending = []
  entries_of id c (waiting p) = []

  abbrev pub is_over : Halt (ℕ × Figures f) → Bool
  is_over (finished v) = true
  is_over (aborted why) = true
  is_over crashed = false
  is_over unending = false
  is_over (waiting p) = false

  -- The tasks that finished, each with its number among the streams accepted, behind `seq` earlier
  -- ones; up to the first that panics or waits.
  unfoldable pub entries_from : ℕ → List (Connection f) → List (Entry)
  entries_from seq [] = []
  entries_from seq (c ∷ later) =
      let counted = entries_from (seq + 1) later in
      let same = entries_from seq later in
      if c.accepted
      then entries_of (seq + 1) c (outcome_of f c)
        ++ (if is_over (outcome_of f c) then counted else [])
      else same

  -- The file with these lines added; the header comes first in a new file.
  unfoldable pub with_rows : List (Entry) → Option (List ℕ) → Option (List ℕ)
  with_rows [] file = file
  with_rows (e ∷ entries) none = some (csv_line csv_header ++ rows (e ∷ entries))
  with_rows (e ∷ entries) (some contents) = some (contents ++ rows (e ∷ entries))
