-- ===== src/Supervisor/Invariant.antt =====
-- What holds of the supervisor whatever it and its child do, in any order of steps and signals.
use mathlib.Core.List.{List, [], ◌∷◌}
use sta_generation_service.Prelude.{
  ℕ, zero, suc, ◌<◌, Bool, true, false, Option, none, some, ◌≡◌, refl, arith, All, ◌⊎◌, inl, inr,
  if-intro, sym, ◌∙◌,
}
use sta_generation_service.Supervisor.{
  Signal, hup, term, int, Position, looping, spawning, waiting, deciding, keeping, clearing, ended,
  failed, State, at_start, send_to, send_signal, handle_signal, running, receive, advance_at,
  advance, exit, Step, advances, receives, exits, Steps, here, next,
}

-- The newest of the children that were started.
abbrev pub newest : ℕ → Option ℕ
newest zero = none
newest (suc n) = some n

-- What a position says of `keep`, of the child and of the number of children: a child runs only while
-- it is waited for, and a first one was started where the program is past Popen.
abbrev pub Fits : Position → Bool → Bool → ℕ → Type 0
Fits looping keep alive n = (alive ≡ false) × ((keep ≡ true) ⊎ (0 < n))
Fits spawning keep alive n = (alive ≡ false) × (keep ≡ false)
Fits waiting keep alive n = (keep ≡ false) × (0 < n)
Fits deciding keep alive n = (alive ≡ false) × (keep ≡ false) × (0 < n)
Fits keeping keep alive n = (alive ≡ false) × (keep ≡ false) × (0 < n)
Fits clearing keep alive n = (alive ≡ false) × (keep ≡ true) × (0 < n)
Fits ended keep alive n = (alive ≡ false) × (0 < n)
Fits failed keep alive n = (alive ≡ false) × (n ≡ 0)

pub record WellFormed (s : State) : Type 0 where
  pub process_newest : s.process ≡ newest s.children
  pub sent_started : All (λ m. m.0 < s.children) s.sent
  pub position_fits : Fits s.position s.keep s.alive s.children

later-started :
    (n : ℕ) (sent : List (ℕ × Signal)) → All (λ m. m.0 < n) sent → All (λ m. m.0 < suc n) sent
later-started n [] all = tt
later-started n (m ∷ sent) (here_, rest) = (omega arith, later-started n sent rest)

-- Before the first child no child runs.
childless :
    (p : Position) (keep alive : Bool) (n : ℕ)
    → Fits p keep alive n
    → none ≡ newest n
    → (alive ≡ false) × (n ≡ 0)
childless looping keep alive zero (dead, loops) h = (dead, refl)
childless spawning keep alive zero (dead, off) h = (dead, refl)
childless waiting keep alive zero (off, started) h = absurd (omega arith)
childless deciding keep alive zero (dead, off, started) h = absurd (omega arith)
childless keeping keep alive zero (dead, off, started) h = absurd (omega arith)
childless clearing keep alive zero (dead, on, started) h = absurd (omega arith)
childless ended keep alive zero (dead, started) h = absurd (omega arith)
childless failed keep alive zero fits h = fits
childless p keep alive (suc n) fits h = absurd (cc)

exit-Fits :
    (p : Position) (keep alive : Bool) (n : ℕ)
    → Fits p keep alive n
    → alive ≡ true
    → Fits p keep false n
exit-Fits waiting keep alive n fits h = fits
exit-Fits looping keep alive n (dead, rest) h = (refl, rest)
exit-Fits spawning keep alive n (dead, rest) h = (refl, rest)
exit-Fits deciding keep alive n (dead, off, started) h = (refl, off, started)
exit-Fits keeping keep alive n (dead, on, started) h = (refl, on, started)
exit-Fits clearing keep alive n (dead, on, started) h = (refl, on, started)
exit-Fits ended keep alive n (dead, rest) h = (refl, rest)
exit-Fits failed keep alive n (dead, rest) h = (refl, rest)

module _ (s : State) (w : WellFormed s) where
  -- The same state at another position, where that fits.
  moved :
      (p : Position) (keep restart : Bool)
      → Fits p keep s.alive s.children
      → WellFormed (record s { position = p; keep = keep; restart = restart })
  moved p keep restart fits = record {
    process_newest = w.process_newest;
    sent_started = w.sent_started;
    position_fits = fits;
  }

  -- A statement keeps the invariant.
  advance_at-WellFormed :
      (p : Position) → Fits p s.keep s.alive s.children → WellFormed (advance_at p s)
  unfolding advance_at
  advance_at-WellFormed looping (dead, loops) =
      if-intro WellFormed s.keep (λ on. moved spawning false s.restart (dead, refl))
        (λ off. moved ended s.keep s.restart (dead, ground arith))
  advance_at-WellFormed spawning (dead, off) = record {
    process_newest = refl;
    sent_started = later-started s.children s.sent w.sent_started;
    position_fits = (off, omega arith);
  }
  advance_at-WellFormed waiting (off, started) =
      if-intro WellFormed s.alive (λ alive. w)
        (λ dead. moved deciding s.keep s.restart (dead, off, started))
  advance_at-WellFormed deciding (dead, off, started) =
      if-intro WellFormed s.restart (λ again. moved keeping s.keep s.restart (dead, off, started))
        (λ last. moved looping s.keep s.restart (dead, inr started))
  advance_at-WellFormed keeping (dead, off, started) =
      moved clearing true s.restart (dead, refl, started)
  advance_at-WellFormed clearing (dead, on, started) =
      moved looping s.keep false (dead, inr started)
  advance_at-WellFormed ended fits = w
  advance_at-WellFormed failed fits = w

  send_to-WellFormed :
      (o : Option ℕ) (signal : Signal) → s.process ≡ o → WellFormed (send_to o signal s)
  unfolding send_to
  send_to-WellFormed none signal at =
      moved failed s.keep s.restart
        (childless s.position s.keep s.alive s.children w.position_fits (sym at ∙ w.process_newest))
  send_to-WellFormed (some child) signal at =
      if-intro WellFormed s.alive
        (λ alive. record {
          process_newest = w.process_newest;
          sent_started = (newest-started s.children (sym at ∙ w.process_newest), w.sent_started);
          position_fits = w.position_fits;
        })
        (λ dead. w)
    where
      newest-started : (n : ℕ) → some child ≡ newest n → child < n
      newest-started zero h = cc
      newest-started (suc n) h = ground arith

module _ (s : State) (w : WellFormed s) where
  -- The new value of `restart` changes nothing that the invariant speaks of.
  flagged :
      (restart : Bool) (signal : Signal)
      → WellFormed (send_signal signal (record s { restart = restart }))
  unfolding send_signal
  flagged restart signal =
      send_to-WellFormed (record s { restart = restart })
        (moved s w s.position s.keep restart w.position_fits) s.process signal refl

  handle_signal-WellFormed : (signal : Signal) → WellFormed (handle_signal signal s)
  unfolding handle_signal
  handle_signal-WellFormed hup = flagged true term
  handle_signal-WellFormed term = flagged false term
  handle_signal-WellFormed int = flagged false int

pub Step-WellFormed : {s t : State} → Step s t → WellFormed s → WellFormed t
unfolding advance receive exit
Step-WellFormed {s} advances w = advance_at-WellFormed s w s.position w.position_fits
Step-WellFormed {s} (receives signal) w =
    if-intro WellFormed (running s.position) (λ on. handle_signal-WellFormed s w signal) (λ off. w)
Step-WellFormed {s} (exits alive) w = record {
  process_newest = w.process_newest;
  sent_started = w.sent_started;
  position_fits = exit-Fits s.position s.keep s.alive s.children w.position_fits alive;
}

Steps-WellFormed : {s t : State} → Steps s t → WellFormed s → WellFormed t
Steps-WellFormed here w = w
Steps-WellFormed (next step steps) w = Steps-WellFormed steps (Step-WellFormed step w)

pub at_start-WellFormed : WellFormed at_start
at_start-WellFormed = record {
  process_newest = refl;
  sent_started = tt;
  position_fits = (refl, inl refl);
}

-- In every state that is reached from the start, however signals and exits come between the
-- statements: `process` is the newest child, signals went to children that were started only, a child
-- runs only while the program waits for it, so there is one at most and none when the program has
-- ended, and the program ends only after a first child was started and fails only before.
pub reached-WellFormed : {s : State} → Steps at_start s → WellFormed s
reached-WellFormed steps = Steps-WellFormed steps at_start-WellFormed
