-- ===== src/Task/Talk/Transfer.antt =====
-- Runs that read a number or send the content.
use quic_hop.Base.{
  ℕ, zero, suc, ◌≤◌, ◌≡◌, refl, ap, ◌∙◌, List, [], ◌∷◌, ◌++◌, arith, true, length, take, drop,
  take-append-drop, length-drop, leb,
}
use mathlib.Core.Path.{fun_ext}
use mathlib.Core.List.{append-nil, append_assoc}
use quic_hop.Clock.{put_uint64}
use quic_hop.Task.{
  Proc, Reason, ◌>>=◌, ◌>>◌, read, read_full, write, abort, crash, endless, finish, send_data,
  chunk_size,
}
use quic_hop.Task.Talk.{open_end, sound_end}
use quic_hop.Task.Run.{Ending, run, rest_of, fails}

pub >>=_assoc :
    {A B C : Type 0} (p : Proc A) (f : A → Proc B) (g : B → Proc C)
    → ((p >>= f) >>= g) ≡ (p >>= λ a. f a >>= g)
>>=_assoc (finish a) f g = refl
>>=_assoc (abort why) f g = refl
>>=_assoc crash f g = refl
>>=_assoc endless f g = refl
>>=_assoc (write bs why p) f g = ap (write bs why) (>>=_assoc p f g)
>>=_assoc (read_full n why k) f g = ap (read_full n why) (fun_ext λ bs. >>=_assoc (k bs) f g)
>>=_assoc (read n why k) f g = ap (read n why) (fun_ext λ bs. >>=_assoc (k bs) f g)

module _ {A : Type 0} (why : Reason) where
  -- Eight bytes are there, and more behind them.
  pub run-read_uint64 :
      (ending : Ending) (v : ℕ) (k : List ℕ → Proc A) (rest cuts out : List ℕ)
      → run (read_full 8 why k) (sound_end ending (put_uint64 v ++ rest) cuts out)
        ≡ run (k (put_uint64 v)) (sound_end ending rest cuts out)
  unfolding run
  run-read_uint64 ending v k rest cuts out =
      let there : leb 8 (length (put_uint64 v ++ rest)) ≡ true = ground arith in
      rw (run, there) refl

  -- The content goes out whole, in chunks.
  pub run-send_data :
      (fuel : ℕ) (content : List ℕ) (k : Proc A) (inbox cuts out : List ℕ)
      → length content ≤ fuel
      → run (send_data fuel content why >> k) (open_end inbox cuts out)
        ≡ run k (open_end inbox cuts (out ++ content))
  unfolding send_data run fails rest_of
  run-send_data zero [] k inbox cuts out h = rw append-nil
  run-send_data zero (b ∷ bs) k inbox cuts out h = absurd (omega arith)
  run-send_data (suc fuel) [] k inbox cuts out h = rw append-nil
  run-send_data (suc fuel) (b ∷ bs) k inbox cuts out h =
      run-send_data fuel (drop chunk_size (b ∷ bs)) k inbox cuts (out ++ take chunk_size (b ∷ bs))
        (omega (arith, length-drop chunk_size (b ∷ bs)))
      ∙ ap (λ (content : List ℕ). run k (open_end inbox cuts content))
          (append_assoc out (take chunk_size (b ∷ bs)) (drop chunk_size (b ∷ bs))
            ∙ ap (λ (content : List ℕ). out ++ content) (take-append-drop chunk_size (b ∷ bs)))
