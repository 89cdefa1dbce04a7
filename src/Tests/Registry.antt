-- ===== src/Tests/Registry.antt =====
-- The registry of crates/erabi-crawler/src/pacing.rs at concrete inputs: two origins, one of them
-- with a waiting task, in a registry with room for two.
use erabi.Base.{◌≡◌, refl, ap, ◌≢◌, inl, inr, some, [], ◌∷◌, arith}
use erabi.Text.{text, text_eq}
use erabi.Pacing.{OriginKey, OriginPacingState, default_state}
use erabi.Pacing.Registry.{get, OriginRegistry, register}
use erabi.Pacing.Registry.Retirement.{InUse}
use erabi.Pacing.Registry.Protection.{IsDistinct, Keeps, register-Keeps}

abbrev busy : OriginKey
busy = record { scheme = text "https"; host = text "a.example"; port = 443 }

abbrev idle : OriginKey
idle = record { scheme = text "https"; host = text "b.example"; port = 8443 }

abbrev newcomer : OriginKey
newcomer = record { scheme = text "https"; host = text "c.example"; port = 9443 }

abbrev waited_for : OriginPacingState
waited_for = record default_state { waiting_admissions = 1 }

abbrev full : OriginRegistry
full = record {
  states = (busy, waited_for) ∷ (idle, default_state) ∷ [];
  next_registration_id = some 7;
  capacity = 2;
}

newcomer_differs : newcomer ≢ busy
newcomer_differs e = omega (arith, ap (λ k. k.port) e)

idle_differs : busy ≢ idle
idle_differs e = omega (arith, ap (λ k. k.port) e)

full-IsDistinct : IsDistinct full.states
full-IsDistinct = ((idle_differs, tt), (tt, tt))

found : get busy full.states ≡ some waited_for
unfolding get text_eq
found = refl

in_use : InUse 5 waited_for
in_use = inr (inr (inl (λ e. omega (arith, e))))

register-Keeps_example : Keeps busy waited_for 5 (register full newcomer 2 5).0.states
register-Keeps_example =
    register-Keeps busy newcomer 5 waited_for full 2 newcomer_differs full-IsDistinct found in_use
