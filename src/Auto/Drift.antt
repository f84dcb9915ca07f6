-- ===== src/Auto/Drift.antt =====
-- What becomes of the two loops once the server has failed a task in the middle of a slot.
use quic_hop.Base.{
  ℕ, zero, suc, ◌+◌, ◌<◌, ◌≡◌, refl, sym, ap, ◌∙◌, List, [], ◌∷◌, arith, length, map, true, false,
  ltb,
}
use quic_hop.Auto.{
  ServerState, handled, handling_failed, serve, try_task, ClientState, tasks_per_slot,
}
use quic_hop.Auto.InStep.{
  failed, completed, attempts, AreInStep, attempts-AreInStep, Undisturbed, tasks_done, server,
}

serve_all : ℕ → ServerState → ServerState
serve_all zero s = s
serve_all (suc n) s = serve_all n (serve handled s)

module _ (ms : ℕ) (slots : List ℕ) where
  serve_all-inside :
      (n done : ℕ)
      → done + n < tasks_per_slot
      → serve_all n (server (ms ∷ slots) done) ≡ server (ms ∷ slots) (done + n)
  unfolding serve_all serve
  serve_all-inside zero done h = ap (server (ms ∷ slots)) (omega arith)
  serve_all-inside (suc n) done h =
      let inside : ltb (done + 1) tasks_per_slot ≡ true = ground (arith, h) in
      rw inside
        (serve_all-inside n (done + 1) (omega (arith, h)) ∙ ap (server (ms ∷ slots)) (omega arith))

  serve_all-whole :
      (n done : ℕ)
      → done + suc n ≡ tasks_per_slot
      → serve_all (suc n) (server (ms ∷ slots) done) ≡ server slots 0
  unfolding serve_all serve
  serve_all-whole zero done h =
      let over : ltb (done + 1) tasks_per_slot ≡ false = ground (arith, h) in rw over refl
  serve_all-whole (suc n) done h =
      let inside : ltb (done + 1) tasks_per_slot ≡ true = ground (arith, h) in
      rw inside (serve_all-whole n (done + 1) (omega (arith, h)))

module _ {Float : Type 0} where
  served :
      (values : List Float) (s : ServerState) (c : ClientState Float)
      → (attempts (map completed values) (s, c)).0 ≡ serve_all (length values) s
  unfolding attempts serve_all
  served [] s c = refl
  served (v ∷ vs) s c = served vs (serve handled s) _

  -- The client's part does not depend on the server's.
  apart :
      (values : List Float) (s s' : ServerState) (c : ClientState Float)
      → (attempts (map completed values) (s, c)).1 ≡ (attempts (map completed values) (s', c)).1
  unfolding attempts
  apart [] s s' c = refl
  apart (v ∷ vs) s s' c = apart vs (serve handled s) (serve handled s') _

  undisturbed : (values : List Float) → Undisturbed (map completed values)
  unfolding Undisturbed
  undisturbed [] = tt
  undisturbed (v ∷ vs) = undisturbed vs

  -- Both programs are in step inside a slot, with a task or more done, when the server fails a task;
  -- then all attempts are completed, as many as the client has left of the slot. The client is then at
  -- the start of the next slot, and the server still in the old one, with only these last tasks
  -- counted.
  pub programs_drift :
      (s : ServerState) (c : ClientState Float) (ms : ℕ) (slots : List ℕ) (v : Float)
      (vs : List Float)
      → AreInStep s c
      → s.slots ≡ ms ∷ slots
      → 0 < s.done
      → s.done + length (v ∷ vs) ≡ tasks_per_slot
      → ((attempts (failed ∷ map completed (v ∷ vs)) (s, c)).0
          ≡ server (ms ∷ slots) (length (v ∷ vs)))
        × ((attempts (failed ∷ map completed (v ∷ vs)) (s, c)).1.slots ≡ slots)
        × (tasks_done (attempts (failed ∷ map completed (v ∷ vs)) (s, c)).1 ≡ 0)
  unfolding attempts try_task
  programs_drift s c ms slots v vs h here pos whole =
      let values = v ∷ vs in
      let after = serve handling_failed s in
      let restarted : after ≡ server (ms ∷ slots) 0 = unfold serve in rw here refl in
      let same : s ≡ server (ms ∷ slots) s.done = ap (λ (left : List ℕ). server left s.done) here in
      let client_alone = apart values after s c in
      let together = attempts-AreInStep (map completed values) s c h (undisturbed values) in
      let server_moves : (attempts (map completed values) (s, c)).0 ≡ server slots 0 =
        served values s c
        ∙ ap (serve_all (length values)) same
        ∙ serve_all-whole ms slots (length vs) s.done whole in
      (
        served values after c
            ∙ ap (serve_all (length values)) restarted
            ∙ serve_all-inside ms slots (length values) 0 (omega (arith, pos, whole))
            ∙ ap (server (ms ∷ slots)) (omega arith),
        ap (λ (c : ClientState Float). c.slots) client_alone
            ∙ sym together.same_slots
            ∙ ap (λ (s : ServerState). s.slots) server_moves,
        ap (λ (c : ClientState Float). tasks_done c) client_alone
            ∙ sym together.same_tasks
            ∙ ap (λ (s : ServerState). s.done) server_moves,
      )
