-- ===== src/Supervisor/Wishes.antt =====
-- What becomes of the service after signals: which of them decide, and which are lost.
use mathlib.Core.List.{List, [], ◌∷◌}
use sta_generation_service.Prelude.{
  ℕ, zero, suc, Bool, true, false, some, if◌then◌else◌, ◌≡◌, refl, subst, ◌<◌, ap, ◌∙◌, arith,
}
use sta_generation_service.Supervisor.{
  Signal, hup, term, int, Position, looping, spawning, waiting, keeping, clearing, ended, State,
  at_start, send_to, send_signal, handle_signal, running, receive, advance_at, advance, exit, Steps,
}
use sta_generation_service.Supervisor.Invariant.{newest, Fits, WellFormed, reached-WellFormed}

-- Signals, one after the other.
abbrev pub receive_all : List Signal → State → State
receive_all [] s = s
receive_all (signal ∷ signals) s = receive_all signals (receive signal s)

-- Statements, one after the other: six are at most what stands between two waits.
abbrev pub advance_by : ℕ → State → State
advance_by zero s = s
advance_by (suc n) s = advance_by n (advance s)

abbrev pub settle : State → State
settle = advance_by 6

-- Whether the last signal asks for a restart.
abbrev pub wish : Bool → List Signal → Bool
wish b [] = b
wish b (hup ∷ signals) = wish true signals
wish b (term ∷ signals) = wish false signals
wish b (int ∷ signals) = wish false signals

-- The program waits for this child, which runs.
abbrev pub at_work : (restart : Bool) → (child children : ℕ) → List (ℕ × Signal) → State
at_work restart child children sent = record {
  position = waiting;
  keep = false;
  restart = restart;
  process = some child;
  children = children;
  alive = true;
  sent = sent;
}

-- The program has ended after this child.
abbrev pub stopped : (child children : ℕ) → List (ℕ × Signal) → State
stopped child children sent = record {
  position = ended;
  keep = false;
  restart = false;
  process = some child;
  children = children;
  alive = false;
  sent = sent;
}

-- What a child is sent for these signals, over what was sent before: SIGTERM for a SIGHUP.
abbrev pub passed : (child : ℕ) → List Signal → List (ℕ × Signal) → List (ℕ × Signal)
passed child [] sent = sent
passed child (hup ∷ signals) sent = passed child signals ((child, term) ∷ sent)
passed child (term ∷ signals) sent = passed child signals ((child, term) ∷ sent)
passed child (int ∷ signals) sent = passed child signals ((child, int) ∷ sent)

module _ (child n : ℕ) where
  receive_all-at_work :
      (signals : List Signal) (b : Bool) (sent : List (ℕ × Signal))
      → receive_all signals (at_work b child n sent)
        ≡ at_work (wish b signals) child n (passed child signals sent)
  unfolding receive running handle_signal send_signal send_to
  receive_all-at_work [] b sent = refl
  receive_all-at_work (hup ∷ signals) b sent = receive_all-at_work signals true _
  receive_all-at_work (term ∷ signals) b sent = receive_all-at_work signals false _
  receive_all-at_work (int ∷ signals) b sent = receive_all-at_work signals false _

  settle-exit :
      (b : Bool) (sent : List (ℕ × Signal))
      → settle (exit (at_work b child n sent))
        ≡ (if b then at_work false n (suc n) sent else stopped child n sent)
  unfolding exit advance advance_at
  settle-exit true sent = refl
  settle-exit false sent = refl

-- A state that is reached and waits for a child that runs is of this form.
waiting-at_work :
    (s : State)
    → WellFormed s
    → s.position ≡ waiting
    → s.alive ≡ true
    → (child : ℕ) × (s ≡ at_work s.restart child (suc child) s.sent)
waiting-at_work s w at alive = go s.children refl
  where
    go : (n : ℕ) → s.children ≡ n → (child : ℕ) × (s ≡ at_work s.restart child (suc child) s.sent)
    go zero none_ =
        let fits : Fits waiting s.keep s.alive s.children =
          subst (λ p. Fits p s.keep s.alive s.children) at w.position_fits in
        let started : 0 < s.children = fits.1 in absurd (omega arith)
    go (suc child) some_ =
        let fits : Fits waiting s.keep s.alive s.children =
          subst (λ p. Fits p s.keep s.alive s.children) at w.position_fits in
        let process = w.process_newest ∙ ap newest some_ in
        (
          child,
          λ i. record {
            position = at i;
            keep = fits.0 i;
            restart = s.restart;
            process = process i;
            children = some_ i;
            alive = alive i;
            sent = s.sent;
          },
        )

-- The last signal decides. When any signals come while a child runs and it exits then, the program
-- waits for a new child, with no restart left over, where the last one was SIGHUP, and has ended where
-- it was SIGTERM or SIGINT; without a signal, what was asked before counts. Each signal was sent to
-- the child, a SIGTERM for a SIGHUP.
pub last-signal :
    (s : State) (signals : List Signal)
    → Steps at_start s
    → s.position ≡ waiting
    → s.alive ≡ true
    → (child : ℕ) × (s.process ≡ some child)
      × (settle (exit (receive_all signals s)) ≡ (
          if wish s.restart signals
          then at_work false (suc child) (suc (suc child)) (passed child signals s.sent)
          else stopped child (suc child) (passed child signals s.sent)))
last-signal s signals steps at alive =
    let (child, same) = waiting-at_work s (reached-WellFormed steps) at alive in
    (
      child,
      ap (λ (t : State). t.process) same,
      ap (λ t. settle (exit (receive_all signals t))) same
          ∙ ap (λ t. settle (exit t))
              (receive_all-at_work child (suc child) signals s.restart s.sent)
          ∙ settle-exit child (suc child) (wish s.restart signals) (passed child signals s.sent),
    )

-- Where the program is between the decision to start the service again and the start.
abbrev pub restarting : Position → Bool → Bool
restarting looping keep = keep
restarting spawning keep = true
restarting keeping keep = true
restarting clearing keep = keep
restarting other keep = false

module _ (keep : Bool) (child n : ℕ) (sent : List (ℕ × Signal)) where
  -- A state without a child that runs.
  abbrev pub resting : Position → Bool → State
  resting p restart = record {
    position = p;
    keep = keep;
    restart = restart;
    process = some child;
    children = n;
    alive = false;
    sent = sent;
  }

  pub receive_all-resting :
      (p : Position) (signals : List Signal) (b : Bool)
      → running p ≡ true
      → receive_all signals (resting p b) ≡ resting p (wish b signals)
  unfolding receive handle_signal send_signal send_to
  receive_all-resting p [] b on = refl
  receive_all-resting p (hup ∷ signals) b on = rw (on) (receive_all-resting p signals true on)
  receive_all-resting p (term ∷ signals) b on = rw (on) (receive_all-resting p signals false on)
  receive_all-resting p (int ∷ signals) b on = rw (on) (receive_all-resting p signals false on)
