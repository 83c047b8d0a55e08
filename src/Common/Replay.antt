-- ===== src/Common/Replay.antt =====
-- A sequence of calls held to rules: each call changes the state or is not allowed, which is `none`.
use mathlib.Core.Path.{◌≡◌, refl, sym, ◌∙◌}
use mathlib.Core.Option.{Option, some}
use mathlib.Core.List.{List, [], ◌∷◌, ◌++◌}
use zybo_z.Common.Tests.{◌>>=◌, bind_congr, bind_assoc}

module _ {ℓ κ} {A : Type ℓ} {S : Type κ} (legal : A → S → Option S) where
  unfoldable pub replay : S → List A → Option S
  replay s [] = some s
  replay s (k ∷ ks) = legal k s >>= λ s'. replay s' ks

  pub replay-append :
      (s : S) (ks es : List A) → replay s (ks ++ es) ≡ (replay s ks >>= λ s'. replay s' es)
  unfolding replay
  replay-append s [] es = refl
  replay-append s (k ∷ ks) es =
      bind_congr (legal k s) (λ s'. replay-append s' ks es)
      ∙ sym (bind_assoc (legal k s) (λ s'. replay s' ks) (λ s'. replay s' es))
