-- ===== src/Task/Crashing.antt =====
-- server/main.go: which clients make the server's process panic.
use quic_hop.Base.{
  ℕ, zero, suc, ◌+◌, ◌≡◌, refl, sym, ◌∙◌, List, [], ◌∷◌, arith, Bool, true, false, ◌&&◌, length,
  take, drop, leb, ltb, ◌==◌, get_or, u64, Bool-cases, inl, inr,
}
use quic_hop.Config.{codes}
use quic_hop.Floats.{Floats}
use quic_hop.Calibration.{get_uint64}
use quic_hop.Task.{
  Proc, Reason, ◌>>=◌, read, read_full, write, abort, crash, endless, finish, receive_data,
  send_data, chunk_size,
}
use quic_hop.Task.Server.{
  Readings, Figures, handle_single_task, dispatch, run_upload_task, run_download_task,
  send_download, report_upload, report_download, task_upload, task_download, pattern_from,
}
use quic_hop.Task.Halting.{CrashesOnlyIf, EndsWell, run-EndsWell}
use quic_hop.Task.Run.{
  Halt, End, Ending, more, end_of_file, broken, run, waiting, finished, aborted, crashed, unending,
  an_end,
}

unfoldable pub is_crashed : {A : Type 0} → Halt A → Bool
is_crashed (finished a) = false
is_crashed (aborted why) = false
is_crashed crashed = true
is_crashed unending = false
is_crashed (waiting p) = false

>>=-CrashesOnlyIf :
    {A B : Type 0} (p : Proc A) (f : A → Proc B)
    → CrashesOnlyIf ⊥ p
    → ((a : A) → CrashesOnlyIf ⊥ (f a))
    → CrashesOnlyIf ⊥ (p >>= f)
unfolding CrashesOnlyIf
>>=-CrashesOnlyIf (finish a) f sound after = after a
>>=-CrashesOnlyIf (abort why) f sound after = tt
>>=-CrashesOnlyIf crash f sound after = absurd sound
>>=-CrashesOnlyIf endless f sound after = tt
>>=-CrashesOnlyIf (write bs why p) f sound after = >>=-CrashesOnlyIf p f sound after
>>=-CrashesOnlyIf (read_full n why k) f sound after =
    λ bs. >>=-CrashesOnlyIf (k bs) f (sound bs) after
>>=-CrashesOnlyIf (read n why k) f sound after = λ bs. >>=-CrashesOnlyIf (k bs) f (sound bs) after

receive_data-CrashesOnlyIf :
    (fuel expected : ℕ) (why : Reason) (received : ℕ)
    → CrashesOnlyIf ⊥ (receive_data fuel expected why received)
unfolding CrashesOnlyIf receive_data
receive_data-CrashesOnlyIf zero expected why received = elim (Bool-cases (ltb received expected)) [
  | inl wanted ↦ rw wanted tt
  | inr all ↦ rw all tt
]
receive_data-CrashesOnlyIf (suc fuel) expected why received =
    elim (Bool-cases (ltb received expected)) [
      | inr all ↦ rw all tt
      | inl wanted ↦ rw wanted λ got. elim (Bool-cases (length got == 0)) [
        | inl over ↦ rw over tt
        | inr some_read ↦
            rw some_read
              (receive_data-CrashesOnlyIf fuel expected why (u64 (received + length got)))
      ]
    ]

send_data-CrashesOnlyIf :
    (fuel : ℕ) (content : List ℕ) (why : Reason) → CrashesOnlyIf ⊥ (send_data fuel content why)
unfolding CrashesOnlyIf send_data
send_data-CrashesOnlyIf zero [] why = tt
send_data-CrashesOnlyIf zero (b ∷ bs) why = tt
send_data-CrashesOnlyIf (suc fuel) [] why = tt
send_data-CrashesOnlyIf (suc fuel) (b ∷ bs) why =
    send_data-CrashesOnlyIf fuel (drop chunk_size (b ∷ bs)) why

EndsWell-is_crashed :
    {A : Type 0} (ending : Ending) (h : Halt A) → EndsWell ⊥ ending h → is_crashed h ≡ false
unfolding EndsWell is_crashed
EndsWell-is_crashed ending (finished a) well = refl
EndsWell-is_crashed ending (aborted why) well = refl
EndsWell-is_crashed ending crashed well = absurd well
EndsWell-is_crashed ending unending well = refl
EndsWell-is_crashed ending (waiting p) well = refl

-- A task that cannot crash does not.
is_crashed-run :
    {A : Type 0} (p : Proc A) (e : End) → CrashesOnlyIf ⊥ p → is_crashed ((run p e).0) ≡ false
is_crashed-run p e sound =
    EndsWell-is_crashed e.ending ((run p e).0)
      (run-EndsWell ⊥ p e.inbox e.ending e.cuts e.faults e.outbox sound)

module _ {A : Type 0} (n : ℕ) (why : Reason) (k : List ℕ → Proc A) (inbox : List ℕ) where
  is_crashed-read_full_short :
      (ending : Ending) (cuts : List ℕ) (faults : List Bool) (outbox : List ℕ)
      → leb n (length inbox) ≡ false
      → is_crashed ((run (read_full n why k) (an_end inbox ending cuts faults outbox)).0) ≡ false
  unfolding is_crashed run
  is_crashed-read_full_short more cuts faults outbox short = rw (run, short) refl
  is_crashed-read_full_short end_of_file cuts faults outbox short = rw (run, short) refl
  is_crashed-read_full_short broken cuts faults outbox short = rw (run, short) refl

-- A download request of a length that cannot be allocated.
unfoldable pub oversized : Readings → List ℕ → Bool
oversized r inbox =
    leb 9 (length inbox)
    && ((get_or inbox 0 0 == task_download)
        && leb r.allocatable (get_uint64 (take 8 (drop 1 inbox))))

module _ (f : Floats) (r : Readings) where
  report_upload-CrashesOnlyIf : (n : ℕ) → CrashesOnlyIf ⊥ (report_upload f r n)
  unfolding CrashesOnlyIf report_upload
  report_upload-CrashesOnlyIf n = λ bs. tt

  report_download-CrashesOnlyIf : (n : ℕ) → CrashesOnlyIf ⊥ (report_download f r n)
  unfolding CrashesOnlyIf report_download
  report_download-CrashesOnlyIf n = λ bs bs'. tt

  run_upload_task-CrashesOnlyIf : CrashesOnlyIf ⊥ (run_upload_task f r)
  unfolding CrashesOnlyIf run_upload_task
  run_upload_task-CrashesOnlyIf = λ bs.
      >>=-CrashesOnlyIf
        (receive_data (get_uint64 bs) (get_uint64 bs) (codes "receive upload data") 0)
        (report_upload f r)
        (receive_data-CrashesOnlyIf (get_uint64 bs) (get_uint64 bs) (codes "receive upload data") 0)
        report_upload-CrashesOnlyIf

  send_download-CrashesOnlyIf :
      (n : ℕ) → leb r.allocatable n ≡ false → CrashesOnlyIf ⊥ (send_download f r n)
  unfolding CrashesOnlyIf send_download
  send_download-CrashesOnlyIf n fits = rw fits (
      >>=-CrashesOnlyIf (send_data n (pattern_from 100 n 0) (codes "send download data"))
        (λ _. report_download f r n)
        (send_data-CrashesOnlyIf n (pattern_from 100 n 0) (codes "send download data"))
        (λ _. report_download-CrashesOnlyIf n))

  abbrev keep : ℕ → Figures f → Proc (ℕ × Figures f)
  keep kind figures = finish (kind, figures)

  -- Once the size is known.
  is_crashed-send_download :
      (n : ℕ) (e : End)
      → is_crashed ((run (send_download f r n >>= keep task_download) e).0) ≡ leb r.allocatable n
  is_crashed-send_download n e = elim (Bool-cases (leb r.allocatable n)) [
    | inl too_big ↦ unfold send_download is_crashed run in rw too_big refl
    | inr fits ↦
        is_crashed-run (send_download f r n >>= keep task_download) e (
          >>=-CrashesOnlyIf (send_download f r n) (keep task_download)
            (send_download-CrashesOnlyIf n fits) (λ figures. unfold CrashesOnlyIf in tt))
        ∙ sym fits
  ]

  -- From the download's size on.
  is_crashed-run_download_task :
      (rest : List ℕ) (ending : Ending) (cuts : List ℕ) (faults : List Bool) (outbox : List ℕ)
      → is_crashed (
          (run
            (run_download_task f r >>= keep task_download)
            (an_end rest ending cuts faults outbox)).0)
        ≡ (leb 8 (length rest) && leb r.allocatable (get_uint64 (take 8 rest)))
  unfolding is_crashed run_download_task run
  is_crashed-run_download_task rest ending cuts faults outbox =
      elim (Bool-cases (leb 8 (length rest))) [
        | inr short ↦
            is_crashed-read_full_short 8 (codes "receive download size") _ rest ending cuts faults
              outbox short
            ∙ sym (rw short refl)
        | inl there ↦
            rw (run, there)
              (is_crashed-send_download (get_uint64 (take 8 rest))
                (an_end (drop 8 rest) ending cuts faults outbox))
      ]

  abbrev refused : List ℕ → Bool
  refused rest = leb 8 (length rest) && leb r.allocatable (get_uint64 (take 8 rest))

  -- Once the task's type is known.
  is_crashed-dispatch :
      (kind : ℕ) (rest : List ℕ) (ending : Ending) (cuts : List ℕ) (faults : List Bool)
      (outbox : List ℕ)
      → is_crashed ((run (dispatch f r kind) (an_end rest ending cuts faults outbox)).0)
        ≡ ((kind == task_download) && refused rest)
  is_crashed-dispatch kind rest ending cuts faults outbox =
      let start = an_end rest ending cuts faults outbox in
      elim (Bool-cases (kind == task_upload)) [
        | inl upload ↦
            let other : (kind == task_download) ≡ false = ground (arith, upload) in
            unfold dispatch in
            rw (upload, other)
              (is_crashed-run (run_upload_task f r >>= keep kind) start (
                >>=-CrashesOnlyIf (run_upload_task f r) (keep kind) run_upload_task-CrashesOnlyIf
                  (λ figures. unfold CrashesOnlyIf in tt)))
        | inr not_upload ↦ elim (Bool-cases (kind == task_download)) [
          | inr unknown ↦ unfold dispatch is_crashed run in rw (not_upload, unknown) refl
          | inl download ↦
              let known : kind ≡ task_download = ground (arith, download) in
              unfold dispatch in
              rw (not_upload, download)
                (rw known (is_crashed-run_download_task rest ending cuts faults outbox))
        ]
      ]

  oversized-cons :
      (b : ℕ) (bs : List ℕ) → ((b == task_download) && refused bs) ≡ oversized r (b ∷ bs)
  unfolding oversized
  oversized-cons b bs =
      let more_by_one : leb 9 (length (b ∷ bs)) ≡ leb 8 (length bs) = ground arith in
      rw more_by_one
        (elim (leb 8 (length bs))
          as (λ there.
            ((b == task_download) && (there && leb r.allocatable (get_uint64 (take 8 bs))))
            ≡ (there && ((b == task_download) && leb r.allocatable (get_uint64 (take 8 bs))))) [
              | true ↦ refl
              | false ↦ elim (b == task_download) as (λ x. (x && false) ≡ false) [
                | true ↦ refl
                | false ↦ refl
              ]
            ])

  -- On any bytes that the server has received when the task starts, with any end of the stream behind
  -- them and any writes that fail: the process panics exactly when they are at least nine, the first of
  -- them asks for a download, and the next eight are a length from `allocatable` on.
  pub is_crashed-handle_single_task :
      (inbox : List ℕ) (ending : Ending) (cuts : List ℕ) (faults : List Bool) (outbox : List ℕ)
      → is_crashed ((run (handle_single_task f r) (an_end inbox ending cuts faults outbox)).0)
        ≡ oversized r inbox
  unfolding is_crashed handle_single_task run oversized
  is_crashed-handle_single_task [] more cuts faults outbox = refl
  is_crashed-handle_single_task [] end_of_file cuts faults outbox = refl
  is_crashed-handle_single_task [] broken cuts faults outbox = refl
  is_crashed-handle_single_task (b ∷ bs) ending cuts faults outbox =
      let there : leb 1 (length (b ∷ bs)) ≡ true = ground arith in
      rw (run, there) (is_crashed-dispatch b bs ending cuts faults outbox ∙ oversized-cons b bs)
