-- ===== src/Report.antt =====
-- server/main.go: `appendResultsCSV`, on the file results.csv.
use quic_hop.Base.{
  ℕ, List, [], ◌∷◌, ◌++◌, Bool, true, false, ◌||◌, ◌&&◌, Option, none, some, leb, ◌==◌,
  if◌then◌else◌, take,
}
use quic_hop.Config.{codes}
use quic_hop.Floats.{Floats}
use quic_hop.Strconv.{decimal}

-- A field in quotes, with its quotes doubled.
unfoldable pub quoted : List ℕ → List ℕ
quoted [] = 34 ∷ []
quoted (c ∷ s) = let rest = quoted s in if c == 34 then 34 ∷ 34 ∷ rest else c ∷ rest

-- A comma, a quote, a carriage return or a newline.
unfoldable pub has_special : List ℕ → Bool
has_special [] = false
has_special (c ∷ s) = (c == 44) || (c == 34) || (c == 13) || (c == 10) || has_special s

unfoldable pub is_only : ℕ → List ℕ → Bool
is_only b [] = false
is_only b (c ∷ []) = c == b
is_only b (c ∷ c' ∷ s) = false

-- encoding/csv's `fieldNeedsQuotes`, on ASCII text.
unfoldable pub needs_quotes : List ℕ → Bool
unfolding has_special is_only
needs_quotes [] = false
needs_quotes (c ∷ s) =
    (c == 32) || (leb 9 c && leb c 13) || has_special (c ∷ s) || ((c == 92) && is_only 46 s)

unfoldable pub csv_field : List ℕ → List ℕ
unfolding needs_quotes quoted
csv_field s = if needs_quotes s then 34 ∷ quoted s else s

-- A record as `csv.Writer` writes it.
unfoldable pub csv_line : List (List ℕ) → List ℕ
unfolding csv_field
csv_line [] = 10 ∷ []
csv_line (s ∷ []) = csv_field s ++ 10 ∷ []
csv_line (s ∷ s' ∷ rest) = csv_field s ++ 44 ∷ csv_line (s' ∷ rest)

abbrev pub csv_header : List (List ℕ)
csv_header =
    codes "SlotDuration"
    ∷ codes "TaskID"
    ∷ codes "TaskType"
    ∷ codes "SpeedMBps"
    ∷ codes "CPU"
    ∷ codes "MemMB"
    ∷ codes "ClientLossPct"
    ∷ codes "ServerLossPct"
    ∷ []

-- What the file system does in one call: an error of `os.Stat` other than a missing file, an error of
-- `os.OpenFile`, and `some n` for a write that fails after n bytes.
pub record FileErrors : Type 0 where
  pub stat_fails : Bool
  pub open_fails : Bool
  pub write_fails : Option ℕ

abbrev pub no_errors : FileErrors
no_errors = record { stat_fails = false; open_fails = false; write_fails = none }

-- The header comes first where the file is missing.
unfoldable pub with_header : Option (List ℕ) → List ℕ → List ℕ
with_header none row = csv_line csv_header ++ row
with_header (some contents) row = row

module _ (f : Floats) where
  pub record TaskResult : Type 0 where
    pub task_id : ℕ
    pub task_type : List ℕ
    pub speed_mbps : f.Float
    pub cpu_avg : f.Float
    pub mem_avg_mb : f.Float
    pub client_loss_pct : f.Float
    pub server_loss_pct : f.Float

  unfoldable pub result_record : ℕ → TaskResult → List (List ℕ)
  result_record slot_ms r =
      decimal slot_ms
      ∷ decimal r.task_id
      ∷ r.task_type
      ∷ f.format 2 r.speed_mbps
      ∷ f.format 1 r.cpu_avg
      ∷ f.format 1 r.mem_avg_mb
      ∷ f.format 4 r.client_loss_pct
      ∷ f.format 4 r.server_loss_pct
      ∷ []

  abbrev pub contents_or_empty : Option (List ℕ) → List ℕ
  contents_or_empty none = []
  contents_or_empty (some contents) = contents

  -- The lines are gathered in memory and written at the end; `none` is a missing file. The test is
  -- whether the call succeeds.
  unfoldable pub append_results_csv :
      FileErrors → ℕ → TaskResult → Option (List ℕ) → Bool × Option (List ℕ)
  append_results_csv w slot_ms r file =
      if w.stat_fails || w.open_fails
      then (false, file)
      else (let row = csv_line (result_record slot_ms r) in
          let text = with_header file row in
          let before = contents_or_empty file in
          elim w.write_fails [
            | none ↦ (true, some (before ++ text))
            | some n ↦ (false, some (before ++ take n text))
          ])
