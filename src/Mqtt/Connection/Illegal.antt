-- ===== src/Mqtt/Connection/Illegal.antt =====
-- The first call on OpenSSL or on a socket that is not allowed, in a row of calls that goes on behind it.
use mathlib.Core.List.{append_assoc, append-nil}
use zybo_z.Common.{◌≡◌, refl, ap, ◌∙◌, none, some, [], ◌∷◌, ◌++◌, List, sym}
use zybo_z.Common.Int.{ℤ}
use zybo_z.Common.Replay.{replay}
use zybo_z.Mqtt.Connection.Calls.{Call, Net, Connection, call, run}
use zybo_z.Mqtt.Connection.Protocol.{Ledger, nothing, held, allowed, legal}

-- The first call that is not allowed is this one, when this is held.
unfoldable pub FirstIllegal : {W : Type 0} → Connection W → Call → Ledger → Type 0
FirstIllegal c k l =
    (before : List (Call × ℤ)) × (r : ℤ) × (after : List (Call × ℤ)) × (c.calls
      ≡ before ++ (k, r) ∷ after)
    × (replay allowed nothing before ≡ some l)
    × (legal k r l ≡ none)

module _ {W : Type 0} where
  -- The calls of one state go on with those of another.
  abbrev pub Extends : Connection W → Connection W → Type 0
  Extends c c' = (es : List (Call × ℤ)) × (c'.calls ≡ c.calls ++ es)

  pub kept : (c : Connection W) → Extends c c
  kept c = ([], sym (append-nil c.calls))

  pub extended : (c c1 c2 : Connection W) → Extends c c1 → Extends c1 c2 → Extends c c2
  extended c c1 c2 (es, e) (fs, f) =
      (es ++ fs, f ∙ ap (λ (ks : List (Call × ℤ)). ks ++ fs) e ∙ append_assoc c.calls es fs)

module _ {W : Type 0} (net : Net W) where
  pub call-Extends : (k : Call) (c : Connection W) → Extends c (call net k c).0
  unfolding call
  call-Extends k c = ((k, (net k c.world).1) ∷ [], refl)

  pub run-Extends : (k : Call) (c : Connection W) → Extends c (run net k c)
  unfolding run
  run-Extends k c = call-Extends k c

  -- The call that is made next is not allowed, and all before it were.
  pub illegal_next :
      (k : Call) (c c' : Connection W) (l : Ledger)
      → held c ≡ some l
      → legal k (net k c.world).1 l ≡ none
      → Extends (call net k c).0 c'
      → FirstIllegal c' k l
  unfolding call FirstIllegal
  illegal_next k c c' l h n (es, e) =
      let r = (net k c.world).1 in (c.calls, r, es, e ∙ append_assoc c.calls ((k, r) ∷ []) es, h, n)
