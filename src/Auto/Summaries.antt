-- ===== src/Auto/Summaries.antt =====
-- The summary that the client prints at the end of a slot.
use mathlib.Core.Path.{subst}
use quic_hop.Base.{
  ℕ, zero, suc, ◌+◌, ◌≤◌, ◌<◌, ◌≡◌, refl, sym, ap, List, [], ◌∷◌, ◌++◌, arith, length, Option, none,
  some, ltb, Bool-cases, inl, inr, get_elem?,
}
use quic_hop.Config.{task_rounds}
use quic_hop.Auto.{
  ServerState, ClientState, Stage, uploading, downloading, Trying, dial_failed, task_failed,
  measured, try_task, summary,
}
use quic_hop.Auto.InStep.{
  Attempt, not_reached, failed, unheard, completed, at_server, at_client, attempts, IsSound,
  completed-AreInStep, tasks_done, server, client, length-snoc, start, start-AreInStep,
}

module _ {Float : Type 0} where
  unfoldable pub IsComplete : Option (List (Float × Float)) → Type 0
  IsComplete none = ⊥
  IsComplete (some rounds) = length rounds ≡ task_rounds

  unfoldable pub AreComplete : List (Option (List (Float × Float))) → Type 0
  AreComplete [] = Unit
  AreComplete (printed ∷ more) = IsComplete printed × AreComplete more

  append-AreComplete :
      (printed : List (Option (List (Float × Float)))) (last : Option (List (Float × Float)))
      → AreComplete printed
      → IsComplete last
      → AreComplete (printed ++ last ∷ [])
  unfolding AreComplete
  append-AreComplete [] last h whole = (whole, tt)
  append-AreComplete (p ∷ ps) last h whole = (h.0, append-AreComplete ps last h.1 whole)

  get_elem?-some :
      (xs : List Float) (i : ℕ) → i < length xs → (x : Float) × (get_elem? xs i ≡ some x)
  get_elem?-some [] i h = absurd (omega arith)
  get_elem?-some (x ∷ xs) zero h = (x, refl)
  get_elem?-some (x ∷ xs) (suc i) h = get_elem?-some xs i (omega (arith, h))

  -- All of the rounds are printed when there are results for them.
  summary-length :
      (left i : ℕ) (uploads downloads : List Float)
      → i + left ≤ length uploads
      → i + left ≤ length downloads
      → (rounds : List (Float × Float)) × ((summary left i uploads downloads ≡ some rounds)
          × (length rounds ≡ left))
  unfolding summary
  summary-length zero i uploads downloads h h' = ([], (refl, refl))
  summary-length (suc left) i uploads downloads h h' =
      let upload = get_elem?-some uploads i (omega (arith, h)) in
      let download = get_elem?-some downloads i (omega (arith, h')) in
      let later =
        summary-length left (i + 1) uploads downloads (omega (arith, h)) (omega (arith, h')) in
      (
        (upload.0, download.0) ∷ later.0,
        (rw (upload.1, download.1, later.1.0) refl, ap suc later.1.1),
      )

  try_task-IsSound : (t : Trying Float) (c : ClientState Float) → IsSound c → IsSound (try_task t c)
  try_task-IsSound dial_failed c sound = unfold try_task in sound
  try_task-IsSound task_failed c sound = unfold try_task in sound
  try_task-IsSound (measured mbps) c sound =
      (completed-AreInStep (server c.slots (tasks_done c)) c mbps
        (record { sound = sound; same_slots = refl; same_tasks = refl })).sound

  whole_slot :
      (uploads downloads : List Float)
      → length uploads ≡ task_rounds
      → length downloads ≡ task_rounds
      → IsComplete (summary task_rounds 0 uploads downloads)
  unfolding IsComplete
  whole_slot uploads downloads h h' =
      let printed =
        summary-length task_rounds 0 uploads downloads (omega (arith, h)) (omega (arith, h')) in
      subst IsComplete (sym printed.1.0) printed.1.1

  try_task-AreComplete :
      (mbps : Float) (slots : List ℕ) (round : ℕ) (stage : Stage) (uploads downloads : List Float)
      (summaries : List (Option (List (Float × Float))))
      → IsSound (client slots round stage uploads downloads summaries)
      → AreComplete summaries
      → AreComplete (
          (try_task
            (measured mbps)
            (client slots round stage uploads downloads summaries)).summaries)
  unfolding try_task
  try_task-AreComplete mbps [] round stage uploads downloads summaries sound h = h
  try_task-AreComplete mbps (ms ∷ slots) round uploading uploads downloads summaries sound h = h
  try_task-AreComplete mbps (ms ∷ slots) round downloading uploads downloads summaries sound h =
      elim (Bool-cases (ltb round task_rounds)) [
        | inl more_rounds ↦ rw more_rounds h
        | inr last_round ↦
            let last : round ≡ task_rounds = ground (arith, last_round, sound.round_bound) in
            rw last_round (
              append-AreComplete summaries _ h (
                whole_slot uploads (downloads ++ mbps ∷ []) (omega (arith, sound.uploads, last))
                  (omega (arith, length-snoc downloads mbps, sound.downloads, last))))
      ]

  tried :
      (t : Trying Float) (c : ClientState Float)
      → AreComplete c.summaries
      → IsSound c
      → AreComplete (try_task t c).summaries
  tried dial_failed c h sound = unfold try_task in h
  tried task_failed c h sound = unfold try_task in h
  tried (measured mbps) c h sound =
      try_task-AreComplete mbps c.slots c.round c.stage c.upload_results c.download_results
        c.summaries sound h

  abbrev trying : Attempt Float → Trying Float
  trying not_reached = dial_failed
  trying failed = task_failed
  trying unheard = task_failed
  trying (completed mbps) = measured mbps

  at_client-trying :
      (a : Attempt Float) (c : ClientState Float) → at_client a c ≡ try_task (trying a) c
  at_client-trying not_reached c = refl
  at_client-trying failed c = refl
  at_client-trying unheard c = refl
  at_client-trying (completed mbps) c = refl

  attempts-AreComplete :
      (tries : List (Attempt Float)) (s : ServerState) (c : ClientState Float)
      → AreComplete c.summaries
      → IsSound c
      → AreComplete (attempts tries (s, c)).1.summaries
  unfolding attempts
  attempts-AreComplete [] s c h sound = h
  attempts-AreComplete (a ∷ later) s c h sound =
      attempts-AreComplete later (at_server a s) (at_client a c)
        (rw (at_client-trying a c) (tried (trying a) c h sound))
        (rw (at_client-trying a c) (try_task-IsSound (trying a) c sound))

  -- Whatever comes of the attempts: each summary that the client prints has a result of each kind for
  -- every round, so that no index is out of range.
  pub summaries-AreComplete :
      (tries : List (Attempt Float)) (slots : List ℕ)
      → AreComplete (attempts tries (start {Float = Float} slots)).1.summaries
  summaries-AreComplete tries slots =
      attempts-AreComplete tries ((start {Float = Float} slots).0) ((start {Float = Float} slots).1)
        (unfold AreComplete in tt) ((start-AreInStep {Float = Float} slots).sound)
