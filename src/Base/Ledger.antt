-- ===== src/Base/Ledger.antt =====
-- Lists of calls that a function makes, the calls that it defers, and an audit of such lists by what is
-- held before and after each call.
use mathlib.Core.Path.{◌≡◌, refl, ◌∙◌}
use mathlib.Core.Logic.{inl, inr}
use mathlib.Core.Option.{Option, none, some}
use mathlib.Core.List.{List, [], ◌∷◌, ◌++◌}
use quic_hop.Base.Tests.{◌>>=◌, Option-cases}

-- The calls made, and the result; none while the function is still at it.
abbrev pub Run {ℓ κ} : Type ℓ → Type κ → Type (ℓ ⊔ κ)
Run Call A = List Call × Option A

module _ {ℓ κ} {Call : Type ℓ} {A : Type κ} where
  -- A function with a deferred call: its body, and the call as it returns, whatever it returns.
  abbrev pub deferring : Run Call A → Call → Run Call A
  deferring (calls, none) last = (calls, none)
  deferring (calls, some a) last = (calls ++ last ∷ [], some a)

  -- Calls before the rest of a function.
  abbrev pub after : List Call → Run Call A → Run Call A
  after calls run = (calls ++ run.0, run.1)

module _ {ℓ κ} {Call : Type ℓ} {Held : Type κ} (step : Held → Call → Option Held) where
  -- What is held after the calls; none if one of them is out of place.
  abbrev pub audit : List Call → Held → Option Held
  audit [] held = some held
  audit (call ∷ calls) held = step held call >>= λ next. audit calls next

  pub audit-append :
      (xs ys : List Call) (a b c : Held)
      → audit xs a ≡ some b
      → audit ys b ≡ some c
      → audit (xs ++ ys) a ≡ some c
  audit-append [] ys a b c e f = let one : a ≡ b = cc in rw one f
  audit-append (x ∷ xs) ys a b c e f = elim (Option-cases (step a x)) [
    | inl refused ↦ absurd (cc (rw refused at e))
    | inr (next, done) ↦ rw done (audit-append xs ys next b c (rw done at e) f)
  ]

  module _ {μ} {A : Type μ} where
    -- A run whose calls are in place, and which holds what it held before if it returns.
    abbrev pub IsKept : Held → Run Call A → Type (κ ⊔ μ)
    IsKept held run =
        (now : Held) × (audit run.0 held ≡ some now) × ((a : A) → run.1 ≡ some a → now ≡ held)

    pub after-IsKept :
        (calls : List Call) (run : Run Call A) (held : Held)
        → audit calls held ≡ some held
        → IsKept held run
        → IsKept held (after calls run)
    after-IsKept calls run held e r = (r.0, audit-append calls run.0 held held r.0 e r.1, r.2)

    -- What is taken first and given back last.
    pub deferring-IsKept :
        (first last : Call) (run : Run Call A) (held inner : Held)
        → step held first ≡ some inner
        → step inner last ≡ some held
        → IsKept inner run
        → IsKept held (after (first ∷ []) (deferring run last))
    deferring-IsKept first last (calls, none) held inner take back r =
        (r.0, rw take r.1, λ a e. absurd (cc))
    deferring-IsKept first last (calls, some a) held inner take back r = (
      held,
      rw take
          (audit-append calls (last ∷ []) inner inner held (r.1 ∙ rw (r.2 a refl)) (rw back refl)),
      λ b e. refl,
    )
