-- ===== src/Task/Run.antt =====
-- Running a task on one end of a stream, until it needs bytes that have not arrived, and the two ends
-- in turn.
use quic_hop.Base.{ℕ, ◌+◌, List, [], ◌∷◌, ◌++◌, Bool, true, false, leb, length, take, drop}
use Prim.Native.Nat.{min}
use quic_hop.Task.{Reason, Proc, finish, abort, crash, endless, write, read_full, read}

-- What follows the bytes that have arrived: more later, the end of the stream, or an error.
pub data Ending : Type 0 where
  more : Ending
  end_of_file : Ending
  broken : Ending

-- One end of a stream: the bytes arrived and not read, what follows them, how many bytes beyond the
-- first each coming `Read` may give (all that fit, when the list is over), which of the coming
-- `Write`s fail, and the bytes written.
pub record End : Type 0 where
  pub inbox : List ℕ
  pub ending : Ending
  pub cuts : List ℕ
  pub faults : List Bool
  pub outbox : List ℕ

-- An end of these fields.
abbrev pub an_end : List ℕ → Ending → List ℕ → List Bool → List ℕ → End
an_end inbox ending cuts faults outbox = record {
  inbox = inbox;
  ending = ending;
  cuts = cuts;
  faults = faults;
  outbox = outbox;
}

-- How far a run came: `unending` is a loop that used up its rounds.
pub data Halt (A : Type 0) : Type 0 where
  finished : A → Halt A
  aborted : Reason → Halt A
  crashed : Halt A
  unending : Halt A
  waiting : Proc A → Halt A

-- How many bytes a `Read` gives of those that arrived.
unfoldable pub portion : ℕ → List ℕ → ℕ
portion n [] = n
portion n (cut ∷ cuts) = min n (cut + 1)

unfoldable pub rest_of {ℓ} : {A : Type ℓ} → List A → List A
rest_of [] = []
rest_of (x ∷ xs) = xs

unfoldable pub fails : List Bool → Bool
fails [] = false
fails (b ∷ bs) = b

module _ {A : Type 0} where
  unfoldable pub run : Proc A → End → Halt A × End
  unfolding portion rest_of fails
  run (finish a) e = (finished a, e)
  run (abort why) e = (aborted why, e)
  run crash e = (crashed, e)
  run endless e = (unending, e)
  run (write bs why p) e = elim (fails e.faults) [
    | true ↦ (aborted why, record e { faults = rest_of e.faults })
    | false ↦ run p (record e { faults = rest_of e.faults; outbox = e.outbox ++ bs })
  ]
  run (read_full n why k) e = elim (leb n (length e.inbox)) [
    | true ↦ run (k (take n e.inbox)) (record e { inbox = drop n e.inbox })
    | false ↦ elim e.ending [
      | more ↦ (waiting (read_full n why k), e)
      | end_of_file ↦ (aborted why, record e { inbox = [] })
      | broken ↦ (aborted why, record e { inbox = [] })
    ]
  ]
  run (read n why k) e = elim e.inbox [
    | [] ↦ elim e.ending [
      | more ↦ (waiting (read n why k), e)
      | end_of_file ↦ run (k []) e
      | broken ↦ (aborted why, e)
    ]
    | b ∷ bs ↦
        let m = portion n e.cuts in
        run (k (take m (b ∷ bs))) (record e { inbox = drop m (b ∷ bs); cuts = rest_of e.cuts })
  ]
