-- ===== src/Cpumon/Setup.antt =====
-- pkg/cpumon/cpumon.go: the set-up of `Monitor`, by what its calls meet: the files that it opens and what
-- it defers.
use quic_hop.Base.{
  ℕ, ◌*◌, ◌≡◌, refl, List, [], ◌∷◌, ◌++◌, Bool, true, false, Option, none, some, ◌==◌,
  if◌then◌else◌, Bool-cases, inl, inr,
}
use quic_hop.Base.Ledger.{Run, deferring, after, IsKept, after-IsKept, deferring-IsKept}
use quic_hop.Config.{codes}
use quic_hop.Clock.{millisecond}

-- What is given back at the end: the files, the buffer in front of the log, which is flushed, and the
-- ticker.
pub data Taken : Type 0 where
  log : Taken
  writer : Taken
  stat : Taken
  meminfo : Taken
  ticker : Taken

pub data Call : Type 0 where
  make_dir : Call
  acquire : Taken → Call
  release : Taken → Call

-- The path of the log: one named after the time if none is given.
unfoldable pub log_path : List ℕ → List ℕ → List ℕ
log_path time [] = codes "cpu_" ++ time ++ codes ".log"
log_path time (c ∷ path) = c ∷ path

-- In nanoseconds; 0 stands for every interval that is not positive.
unfoldable pub sampling_interval : ℕ → ℕ
sampling_interval interval = if interval == 0 then 100 * millisecond else interval

-- Whether `filepath.Dir` names a directory to be made, how the calls of package os end, and how the
-- loop does: it goes on, or returns with or without an error.
pub record Opening : Type 0 where
  pub has_dir : Bool
  pub dir_made : Bool
  pub log_opened : Bool
  pub stat_opened : Bool
  pub meminfo_opened : Bool
  pub looped : Option Bool

-- The path, and whether the error is nil.
abbrev pub Returned : Type 0
Returned = List ℕ × Bool

abbrev pub failed : Run Call Returned
failed = ([], some ([], false))

abbrev pub looping : List ℕ → Option Bool → Run Call Returned
looping path none = ([], none)
looping path (some fine) = ([], some (path, fine))

-- A thing that is taken, if it can be, and given back at the end.
unfoldable pub holding : Taken → Bool → Run Call Returned → Run Call Returned
holding t false rest = failed
holding t true rest = after (acquire t ∷ []) (deferring rest (release t))

unfoldable pub monitor_files : List ℕ → Opening → Run Call Returned
unfolding holding
monitor_files path o = holding log o.log_opened (
    holding writer true (
      holding stat o.stat_opened
        (holding meminfo o.meminfo_opened (holding ticker true (looping path o.looped)))))

unfoldable pub monitor_calls : List ℕ → List ℕ → Opening → Run Call Returned
unfolding log_path monitor_files
monitor_calls time path o =
    if o.has_dir
    then (if o.dir_made
        then after (make_dir ∷ []) (monitor_files (log_path time path) o)
        else failed)
    else monitor_files (log_path time path) o

abbrev pub same : Taken → Taken → Bool
same log log = true
same writer writer = true
same stat stat = true
same meminfo meminfo = true
same ticker ticker = true
same a b = false

-- A buffer stands in front of an open log.
abbrev pub may_take : Taken → List Taken → Bool
may_take log held = true
may_take writer [] = false
may_take writer (top ∷ held) = same top log
may_take stat held = true
may_take meminfo held = true
may_take ticker held = true

abbrev pub audit_call : List Taken → Call → Option (List Taken)
audit_call held make_dir = some held
audit_call held (acquire t) = if may_take t held then some (t ∷ held) else none
audit_call [] (release t) = none
audit_call (top ∷ held) (release t) = if same top t then some held else none

given_back : (t : Taken) (held : List Taken) → audit_call (t ∷ held) (release t) ≡ some held
given_back log held = refl
given_back writer held = refl
given_back stat held = refl
given_back meminfo held = refl
given_back ticker held = refl

holding-IsKept :
    (t : Taken) (ok : Bool) (rest : Run Call Returned) (held : List Taken)
    → may_take t held ≡ true
    → IsKept audit_call (t ∷ held) rest
    → IsKept audit_call held (holding t ok rest)
unfolding holding
holding-IsKept t false rest held may inner = (held, refl, λ a e. refl)
holding-IsKept t true rest held may inner =
    deferring-IsKept audit_call (acquire t) (release t) rest held (t ∷ held) (rw may)
      (given_back t held) inner

looping-IsKept :
    (path : List ℕ) (looped : Option Bool) (held : List Taken)
    → IsKept audit_call held (looping path looped)
looping-IsKept path none held = (held, refl, λ a e. refl)
looping-IsKept path (some fine) held = (held, refl, λ a e. refl)

monitor_files-IsKept : (path : List ℕ) (o : Opening) → IsKept audit_call [] (monitor_files path o)
unfolding monitor_files
monitor_files-IsKept path o = holding-IsKept log o.log_opened _ [] refl (
    holding-IsKept writer true _ (log ∷ []) refl (
      holding-IsKept stat o.stat_opened _ (writer ∷ log ∷ []) refl (
        holding-IsKept meminfo o.meminfo_opened _ (stat ∷ writer ∷ log ∷ []) refl (
          holding-IsKept ticker true _ (meminfo ∷ stat ∷ writer ∷ log ∷ []) refl
            (looping-IsKept path o.looped (ticker ∷ meminfo ∷ stat ∷ writer ∷ log ∷ []))))))

-- Whatever the calls of `Monitor` meet, it puts its buffer in front of an open log, and when it returns
-- it has closed every file that it opened, stopped its ticker and flushed its buffer, the latest
-- first, so that the log is closed after the flush.
pub monitor_calls-IsKept :
    (time path : List ℕ) (o : Opening) → IsKept audit_call [] (monitor_calls time path o)
unfolding monitor_calls
monitor_calls-IsKept time path o = elim (Bool-cases o.has_dir) [
  | inl dir ↦ elim (Bool-cases o.dir_made) [
    | inl made ↦
        rw (dir, made)
          (after-IsKept audit_call (make_dir ∷ []) (monitor_files (log_path time path) o) [] refl
            (monitor_files-IsKept (log_path time path) o))
    | inr refused ↦ rw (dir, refused) (([], refl, λ a e. refl))
  ]
  | inr here ↦ rw here (monitor_files-IsKept (log_path time path) o)
]
