-- ===== src/Auto/InStep.antt =====
-- Both programs' loops together, attempt by attempt, while the server fails no task.
use quic_hop.Base.{
  ℕ, ◌+◌, ◌-◌, ◌*◌, ◌≤◌, ◌≡◌, refl, List, [], ◌∷◌, ◌++◌, Option, arith, length, true, false, sym,
  ltb, Bool-cases, inl, inr,
}
use mathlib.Core.Path.{subst}
use quic_hop.Config.{task_rounds}
use quic_hop.Auto.{
  ServerState, handling_failed, handled, serve, Stage, uploading, downloading, ClientState,
  dial_failed, task_failed, measured, try_task, tasks_per_slot,
}

-- One attempt at a task, by what the two ends make of it: the client does not reach the server; both
-- see it fail; the server has handled it and the client does not hear its last ACK; both complete it.
pub data Attempt (Float : Type 0) : Type 0 where
  not_reached : Attempt Float
  failed : Attempt Float
  unheard : Attempt Float
  completed : Float → Attempt Float

abbrev pub in_round : Stage → ℕ
in_round uploading = 0
in_round downloading = 1

abbrev pub server : List ℕ → ℕ → ServerState
server slots done = record { slots = slots; done = done }

module _ {Float : Type 0} where
  abbrev pub at_server : Attempt Float → ServerState → ServerState
  at_server not_reached s = s
  at_server failed s = serve handling_failed s
  at_server unheard s = serve handled s
  at_server (completed mbps) s = serve handled s

  abbrev pub at_client : Attempt Float → ClientState Float → ClientState Float
  at_client not_reached c = try_task dial_failed c
  at_client failed c = try_task task_failed c
  at_client unheard c = try_task task_failed c
  at_client (completed mbps) c = try_task (measured mbps) c

  unfoldable pub attempts :
      List (Attempt Float) → ServerState × ClientState Float → ServerState × ClientState Float
  attempts [] (s, c) = (s, c)
  attempts (a ∷ later) (s, c) = attempts later (at_server a s, at_client a c)

  -- Every attempt is completed by both or does not reach the server.
  unfoldable pub Undisturbed : List (Attempt Float) → Type 0
  Undisturbed [] = Unit
  Undisturbed (not_reached ∷ later) = Undisturbed later
  Undisturbed (completed mbps ∷ later) = Undisturbed later
  Undisturbed (failed ∷ later) = ⊥
  Undisturbed (unheard ∷ later) = ⊥

  -- The tasks that the client has completed in this slot.
  abbrev pub tasks_done : ClientState Float → ℕ
  tasks_done c = (c.round - 1) * 2 + in_round c.stage

  -- The client's loop variable and its results agree with each other.
  pub record IsSound (c : ClientState Float) : Type 0 where
    pub round_pos : 1 ≤ c.round
    pub round_bound : c.round ≤ task_rounds
    pub uploads : length c.upload_results ≡ c.round - 1 + in_round c.stage
    pub downloads : length c.download_results ≡ c.round - 1

  pub record AreInStep (s : ServerState) (c : ClientState Float) : Type 0 where
    pub sound : IsSound c
    pub same_slots : s.slots ≡ c.slots
    pub same_tasks : s.done ≡ tasks_done c

  abbrev pub start : List ℕ → ServerState × ClientState Float
  start slots = (
    record { slots = slots; done = 0 },
    record {
      slots = slots;
      round = 1;
      stage = uploading;
      upload_results = [];
      download_results = [];
      summaries = [];
    },
  )

  abbrev pub client :
      List ℕ
      → ℕ
      → Stage
      → List Float
      → List Float
      → List (Option (List (Float × Float)))
      → ClientState Float
  client slots round stage uploads downloads summaries = record {
    slots = slots;
    round = round;
    stage = stage;
    upload_results = uploads;
    download_results = downloads;
    summaries = summaries;
  }

  pub length-snoc : (xs : List Float) (x : Float) → length (xs ++ x ∷ []) ≡ length xs + 1
  length-snoc [] x = omega arith
  length-snoc (y ∷ ys) x = omega (arith, length-snoc ys x)

  -- A measured task is one more on both sides, and the last of a slot brings both to the next slot.
  both_count :
      (done : ℕ) (mbps : Float) (slots : List ℕ) (round : ℕ) (stage : Stage)
      (uploads downloads : List Float) (summaries : List (Option (List (Float × Float))))
      → AreInStep (server slots done) (client slots round stage uploads downloads summaries)
      → AreInStep
          (serve handled (server slots done))
          (try_task (measured mbps) (client slots round stage uploads downloads summaries))
  unfolding serve try_task
  both_count done mbps [] round stage uploads downloads summaries h = h
  both_count done mbps (ms ∷ slots) round uploading uploads downloads summaries h =
      let sound = h.sound in
      let inside : ltb (done + 1) tasks_per_slot ≡ true =
        ground (arith, h.same_tasks, sound.round_pos, sound.round_bound) in
      rw inside (record {
        sound = record {
          round_pos = sound.round_pos;
          round_bound = sound.round_bound;
          uploads = omega (arith, length-snoc uploads mbps, sound.uploads);
          downloads = sound.downloads;
        };
        same_slots = refl;
        same_tasks = omega (arith, h.same_tasks);
      })
  both_count done mbps (ms ∷ slots) round downloading uploads downloads summaries h =
      let sound = h.sound in
      elim (Bool-cases (ltb round task_rounds)) [
        | inl more_rounds ↦
            let inside : ltb (done + 1) tasks_per_slot ≡ true =
              ground (arith, more_rounds, h.same_tasks, sound.round_pos) in
            rw (inside, more_rounds)
              (record {
                sound = record {
                  round_pos = omega (arith, sound.round_pos);
                  round_bound = ground (arith, more_rounds);
                  uploads = omega (arith, sound.uploads, sound.round_pos);
                  downloads =
                      omega (arith, length-snoc downloads mbps, sound.downloads, sound.round_pos);
                };
                same_slots = refl;
                same_tasks = omega (arith, h.same_tasks, sound.round_pos);
              })
        | inr last_round ↦
            let over : ltb (done + 1) tasks_per_slot ≡ false =
              ground (arith, last_round, h.same_tasks, sound.round_bound) in
            rw (over, last_round)
              (record {
                sound = record {
                  round_pos = omega arith;
                  round_bound = omega arith;
                  uploads = refl;
                  downloads = refl;
                };
                same_slots = refl;
                same_tasks = refl;
              })
      ]

  pub completed-AreInStep :
      (s : ServerState) (c : ClientState Float) (mbps : Float)
      → AreInStep s c
      → AreInStep (serve handled s) (try_task (measured mbps) c)
  completed-AreInStep s c mbps h =
      subst
        (λ (slots : List ℕ).
          AreInStep (serve handled (server slots s.done)) (try_task (measured mbps) c))
        (sym h.same_slots)
        (both_count s.done mbps c.slots c.round c.stage c.upload_results c.download_results
          c.summaries (record { sound = h.sound; same_slots = refl; same_tasks = h.same_tasks }))

  pub attempts-AreInStep :
      (tries : List (Attempt Float)) (s : ServerState) (c : ClientState Float)
      → AreInStep s c
      → Undisturbed tries
      → AreInStep ((attempts tries (s, c)).0) ((attempts tries (s, c)).1)
  unfolding attempts Undisturbed try_task
  attempts-AreInStep [] s c h quiet = h
  attempts-AreInStep (not_reached ∷ later) s c h quiet = attempts-AreInStep later s c h quiet
  attempts-AreInStep (completed mbps ∷ later) s c h quiet =
      attempts-AreInStep later (serve handled s) (try_task (measured mbps) c)
        (completed-AreInStep s c mbps h) quiet
  attempts-AreInStep (failed ∷ later) s c h quiet = absurd quiet
  attempts-AreInStep (unheard ∷ later) s c h quiet = absurd quiet

  pub start-AreInStep : (slots : List ℕ) → AreInStep ((start slots).0) ((start slots).1)
  start-AreInStep slots = record {
    sound = record {
      round_pos = omega arith;
      round_bound = omega arith;
      uploads = refl;
      downloads = refl;
    };
    same_slots = refl;
    same_tasks = refl;
  }

  -- As long as every attempt is completed by both programs or does not reach the server, both are in
  -- the same slot with the same number of its tasks done, and the client's results are as many as its
  -- loop variable says.
  pub programs_stay_in_step :
      (tries : List (Attempt Float)) (slots : List ℕ)
      → Undisturbed tries
      → AreInStep ((attempts tries (start slots)).0) ((attempts tries (start slots)).1)
  programs_stay_in_step tries slots quiet =
      attempts-AreInStep tries ((start slots).0) ((start slots).1) (start-AreInStep slots) quiet
