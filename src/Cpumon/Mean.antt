-- ===== src/Cpumon/Mean.antt =====
-- What `AverageBetween` averages.
use quic_hop.Base.{
  ℕ, suc, ◌+◌, ◌<◌, ◌≡◌, refl, ap, ◌∙◌, List, [], ◌∷◌, map, false, ◌&&◌, ltb, leb, ◌==◌,
  if◌then◌else◌, length, arith, Bool-cases, inl, inr,
}
use native.Mathlib.Nat.{zero-add}
use quic_hop.Floats.{Floats}
use quic_hop.Cpumon.{Result, ProcessMonitor, sum_between, average_of, average_between}

module _ (f : Floats) where
  abbrev pub sum_from : f.Float → List f.Float → f.Float
  sum_from sum [] = sum
  sum_from sum (x ∷ xs) = sum_from (f.add sum x) xs

  abbrev pub mean : List f.Float → f.Float
  mean xs =
      if length xs == 0
      then f.of_uint64 0
      else f.div (sum_from (f.of_uint64 0) xs) (f.of_uint64 (length xs))

  -- The samples of a time from `start` to `end`, both included.
  unfoldable pub window : ℕ → ℕ → List (Result f) → List (Result f)
  window start end [] = []
  window start end (s ∷ samples) =
      let later = window start end samples in
      if leb start s.timestamp && leb s.timestamp end then s ∷ later else later

  abbrev pub cpus : List (Result f) → List f.Float
  cpus = map (λ (s : Result f). s.cpu_usage)

  abbrev pub mems : List (Result f) → List f.Float
  mems = map (λ (s : Result f). s.mem_usage)

  sum_between-window :
      (start end : ℕ) (samples : List (Result f)) (cpu mem : f.Float) (count : ℕ)
      → sum_between f start end samples (cpu, (mem, count)) ≡ (
        sum_from cpu (cpus (window start end samples)),
        (sum_from mem (mems (window start end samples)), count + length (window start end samples)),
      )
  unfolding sum_between window
  sum_between-window start end [] cpu mem count = ap (λ (n : ℕ). (cpu, (mem, n))) (omega arith)
  sum_between-window start end (s ∷ samples) cpu mem count =
      elim (Bool-cases (leb start s.timestamp && leb s.timestamp end)) [
        | inl inside ↦ rw inside (
            sum_between-window start end samples (f.add cpu s.cpu_usage) (f.add mem s.mem_usage)
              (count + 1)
            ∙ ap
                (λ (n : ℕ). (
                  sum_from cpu (cpus (s ∷ window start end samples)),
                  (sum_from mem (mems (s ∷ window start end samples)), n),
                ))
                (omega arith))
        | inr outside ↦ rw outside (sum_between-window start end samples cpu mem count)
      ]

  window-empty :
      (start end : ℕ) (samples : List (Result f)) → end < start → window start end samples ≡ []
  unfolding window
  window-empty start end [] h = refl
  window-empty start end (s ∷ samples) h =
      let outside : (leb start s.timestamp && leb s.timestamp end) ≡ false = ground arith in
      rw outside (window-empty start end samples h)

  length-map :
      (g : Result f → f.Float) (samples : List (Result f)) → length (map g samples) ≡ length samples
  length-map g [] = refl
  length-map g (s ∷ samples) = ap suc (length-map g samples)

  average_of-means :
      (taken : List (Result f))
      → average_of f (
        sum_from (f.of_uint64 0) (cpus taken),
        (sum_from (f.of_uint64 0) (mems taken), length taken),
      )
        ≡ (mean (cpus taken), mean (mems taken))
  unfolding average_of
  average_of-means [] = refl
  average_of-means (s ∷ taken) =
      let some_taken : (suc (length taken) == 0) ≡ false = ground arith in
      rw
        (
          length-map (λ (s : Result f). s.cpu_usage) taken,
          length-map (λ (s : Result f). s.mem_usage) taken,
          some_taken,
        )
        refl

  -- For any two times, in either order: the mean CPU share and the mean memory of the samples taken
  -- from the one to the other, both included, and 0 where there is none.
  pub average_between-window :
      (start end : ℕ) (pm : ProcessMonitor f)
      → average_between f start end pm
        ≡ (mean (cpus (window start end pm.samples)), mean (mems (window start end pm.samples)))
  average_between-window start end pm =
      let taken = window start end pm.samples in
      elim (Bool-cases (ltb end start)) [
        | inl reversed ↦
            unfold average_between in
            rw (reversed, window-empty start end pm.samples (ground (arith, reversed))) refl
        | inr ordered ↦
            unfold average_between in
            rw ordered (
              ap (average_of f) (
                sum_between-window start end pm.samples (f.of_uint64 0) (f.of_uint64 0) 0
                ∙ ap
                    (λ (n : ℕ). (
                      sum_from (f.of_uint64 0) (cpus taken),
                      (sum_from (f.of_uint64 0) (mems taken), n),
                    ))
                    (zero-add (length taken)))
              ∙ average_of-means taken)
      ]
