-- ===== src/Auto.antt =====
-- server/main.go and client/main.go with `-auto`: how the two programs count the tasks of a slot, each
-- on its own, and go on to the next slot.
pub mod InStep
pub mod Drift
pub mod Summaries
use quic_hop.Base.{
  ℕ, zero, suc, ◌+◌, ◌*◌, List, [], ◌∷◌, ◌++◌, Option, none, some, ltb, leb, ◌==◌, if◌then◌else◌,
  get_elem?, ◌>>=◌,
}
use quic_hop.Config.{task_rounds}

abbrev pub tasks_per_slot : ℕ
tasks_per_slot = task_rounds * 2

-- The slot durations, in milliseconds, the same in both programs.
abbrev pub auto_slots : List ℕ
auto_slots =
    1500 ∷ 1400 ∷ 1300 ∷ 1200 ∷ 1100 ∷ 1000 ∷ 900 ∷ 800 ∷ 700 ∷ 600 ∷ 500 ∷ 400 ∷ 300 ∷ 200 ∷ 100
    ∷ 100 ∷ 99999999 ∷ []

abbrev pub next_slots : List ℕ → List ℕ
next_slots [] = []
next_slots (ms ∷ slots) = slots

-- The server in its loop: the slots left, the present one first, and the tasks it has completed in
-- this run of `serveOnce`.
pub record ServerState : Type 0 where
  pub slots : List ℕ
  pub done : ℕ

-- What a call in `serveOnce` comes back with: no socket or no listener, `Accept`'s error, `handleConn`'s
-- error, or a task handled.
pub data Serving : Type 0 where
  setup_failed : Serving
  accept_failed : Serving
  handling_failed : Serving
  handled : Serving

-- An error leaves `serveOnce`, which `runAutoSlots` then calls again for the same slot. After the last
-- slot nothing happens.
unfoldable pub serve : Serving → ServerState → ServerState
serve event s = elim s.slots [
  | [] ↦ s
  | ms ∷ slots ↦ elim event [
    | setup_failed ↦ record s { done = 0 }
    | accept_failed ↦ record s { done = 0 }
    | handling_failed ↦ record s { done = 0 }
    | handled ↦
        if ltb (s.done + 1) tasks_per_slot
        then record s { done = s.done + 1 }
        else record { slots = slots; done = 0 }
  ]
]

-- Which of a round's two loops the client is in.
pub data Stage : Type 0 where
  uploading : Stage
  downloading : Stage

module _ (Float : Type 0) where
  -- The client in its loops: the slots left, the round, what was measured in this slot, and the
  -- summaries it has printed; `none` is a panic on an index that is out of range.
  pub record ClientState : Type 0 where
    pub slots : List ℕ
    pub round : ℕ
    pub stage : Stage
    pub upload_results : List Float
    pub download_results : List Float
    pub summaries : List (Option (List (Float × Float)))

  pub data Trying : Type 0 where
    dial_failed : Trying
    task_failed : Trying
    measured : Float → Trying

module _ {Float : Type 0} where
  -- The rounds from index `i` on.
  unfoldable pub summary : ℕ → ℕ → List Float → List Float → Option (List (Float × Float))
  summary zero i uploads downloads = some []
  summary (suc left) i uploads downloads = do
    upload ← get_elem? uploads i
    download ← get_elem? downloads i
    later ← summary left (i + 1) uploads downloads
    some ((upload, download) ∷ later)

  -- An error makes the same loop try again. After round `task_rounds` the client prints the summary
  -- and goes on to the next slot.
  unfoldable pub try_task : Trying Float → ClientState Float → ClientState Float
  try_task dial_failed c = c
  try_task task_failed c = c
  try_task (measured mbps) c = elim c.slots [
    | [] ↦ c
    | ms ∷ slots ↦ elim c.stage [
      | uploading ↦ record c { stage = downloading; upload_results = c.upload_results ++ mbps ∷ [] }
      | downloading ↦
          let downloads = c.download_results ++ mbps ∷ [] in
          if ltb c.round task_rounds
          then record c { round = c.round + 1; stage = uploading; download_results = downloads }
          else record {
            slots = slots;
            round = 1;
            stage = uploading;
            upload_results = [];
            download_results = [];
            summaries = c.summaries ++ summary task_rounds 0 c.upload_results downloads ∷ [];
          }
    ]
  ]
