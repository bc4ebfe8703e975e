-- ===== src/Tests/Services.antt =====
-- A supervisor at work.
use Prim.Native.String.{[], ◌∷◌}
use mathlib.Core.List.{[], ◌∷◌}
use sta_generation_service.Prelude.{ℕ, suc, true, false, some, ◌≡◌, refl, if◌then◌else◌}
use sta_generation_service.Supervisor.{
  hup, term, int, waiting, clearing, State, at_start, receive, advance, exit, advances, receives,
  exits, Steps, here, next,
}
use sta_generation_service.Supervisor.Invariant.{WellFormed, reached-WellFormed}
use sta_generation_service.Supervisor.Service.{starting, heard, exited, Serves, service, run-Serves}
use sta_generation_service.Supervisor.Wishes.{
  receive_all, settle, wish, at_work, stopped, passed, last-signal,
}
use sta_generation_service.Supervisor.Runs.{Settled, settle-Settled, lost-signals}

-- The first child is started.
first_child : Steps at_start (at_work false 0 1 [])
unfolding advance
first_child = next advances (next advances here)

-- It is told to restart and exits, and the program has decided to at_start it again.
abbrev deciding_again : State
deciding_again = record {
  position = clearing;
  keep = true;
  restart = true;
  process = some 0;
  children = 1;
  alive = false;
  sent = (0, term) ∷ [];
}

decides_again : Steps at_start deciding_again
unfolding advance receive exit
decides_again = next advances (
    next advances (
      next (receives hup) (next (exits refl) (next advances (next advances (next advances here))))))

reached-WellFormed_example : WellFormed deciding_again
reached-WellFormed_example = reached-WellFormed decides_again

last-signal_example :
    (child : ℕ) × (some 0 ≡ some child)
    × (settle (exit (receive_all (hup ∷ int ∷ hup ∷ []) (at_work false 0 1 []))) ≡ (
        if wish false (hup ∷ int ∷ hup ∷ [])
        then at_work false (suc child) (suc (suc child)) (passed child (hup ∷ int ∷ hup ∷ []) [])
        else stopped child (suc child) (passed child (hup ∷ int ∷ hup ∷ []) [])))
last-signal_example =
    last-signal (at_work false 0 1 []) (hup ∷ int ∷ hup ∷ []) first_child refl refl

settle-Settled_example :
    Settled (settle deciding_again) × (advance (settle deciding_again) ≡ settle deciding_again)
settle-Settled_example = settle-Settled deciding_again

run-Serves_example : Serves (starting 0 false) (heard hup ∷ exited ∷ []) (service deciding_again)
unfolding advance receive exit decides_again
run-Serves_example = run-Serves decides_again

lost-signals_example :
    let t = settle (receive_all (term ∷ int ∷ []) deciding_again) in
    (t.position ≡ waiting) × (t.alive ≡ true) × (t.process ≡ some 1) × (t.sent ≡ (0, term) ∷ [])
lost-signals_example = lost-signals deciding_again 0 (term ∷ int ∷ []) decides_again refl refl
