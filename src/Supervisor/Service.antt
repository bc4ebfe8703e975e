-- ===== src/Supervisor/Service.antt =====
-- What the supervisor promises of the service, and that its steps keep to it.
use mathlib.Core.List.{List, [], ◌∷◌}
use sta_generation_service.Prelude.{
  ℕ, zero, suc, Bool, true, false, if◌then◌else◌, ◌≡◌, refl, sym, ap, ◌∙◌, subst, arith, ◌⊎◌, inl,
  inr, if-intro,
}
use sta_generation_service.Supervisor.{
  Signal, hup, term, int, Position, looping, spawning, waiting, deciding, keeping, clearing, ended,
  failed, State, at_start, send_to, send_signal, handle_signal, running, receive, advance_at,
  advance, exit, advances, receives, exits, Steps, here, next,
}
use sta_generation_service.Supervisor.Invariant.{
  newest, Fits, WellFormed, Step-WellFormed, at_start-WellFormed,
}

-- The service after `children` starts, and whether it is to be started again: it serves, or has ended
-- and nothing is decided yet. Where it is to be started again, the program first takes the wish back,
-- and then is about to start it. It is over, or the program failed before the first start.
pub data Service : Type 0 where
  serving ended_ : (children : ℕ) (again : Bool) → Service
  resetting : (children : ℕ) → Service
  starting : (children : ℕ) (again : Bool) → Service
  over broken : Service

-- What happens from outside: a signal comes, or the child exits.
pub data Happening : Type 0 where
  heard : Signal → Happening
  exited : Happening

-- SIGHUP asks for a restart, and the other two take it back.
abbrev pub wished : Signal → Bool
wished hup = true
wished term = false
wished int = false

-- What a signal does to the service: it decides whether it is started again, but not while the wish is
-- being taken back, and breaks what was to be started first.
abbrev pub hear : Signal → Service → Service
hear signal (serving n again) = serving n (wished signal)
hear signal (ended_ n again) = ended_ n (wished signal)
hear signal (resetting n) = resetting n
hear signal (starting zero again) = broken
hear signal (starting (suc n) again) = starting (suc n) (wished signal)
hear signal over = over
hear signal broken = broken

-- What a happening does.
pub data Suffers : Happening → Service → Service → Type 0 where
  hears : {a : Service} (signal : Signal) → Suffers (heard signal) a (hear signal a)
  exits_ : {n : ℕ} {again : Bool} → Suffers exited (serving n again) (ended_ n again)

-- What the program does by itself, after the service has ended.
pub data Decides : Service → Service → Type 0 where
  restarts : {n : ℕ} → Decides (ended_ n true) (resetting n)
  finishes : {n : ℕ} → Decides (ended_ n false) over
  takes_back : {n : ℕ} → Decides (resetting n) (starting n false)
  starts : {n : ℕ} {again : Bool} → Decides (starting n again) (serving (suc n) again)

-- A run of the service in which these happenings come, in this order.
pub data Serves : Service → List Happening → Service → Type 0 where
  done : {a : Service} → Serves a [] a
  decides :
      {a b c : Service} {happenings : List Happening}
      → Decides a b
      → Serves b happenings c
      → Serves a happenings c
  suffers :
      {a b c : Service} {happening : Happening} {happenings : List Happening}
      → Suffers happening a b
      → Serves b happenings c
      → Serves a (happening ∷ happenings) c

-- What comes from outside in a run of the program.
abbrev pub happenings_of : {s t : State} → Steps s t → List Happening
happenings_of here = []
happenings_of (next advances steps) = happenings_of steps
happenings_of (next (receives signal) steps) = heard signal ∷ happenings_of steps
happenings_of (next (exits alive) steps) = exited ∷ happenings_of steps

-- What a state of the program is of the service.
abbrev pub view : Position → (keep restart alive : Bool) → (children : ℕ) → Service
view looping keep restart alive n = if keep then starting n restart else over
view spawning keep restart alive n = starting n restart
view waiting keep restart alive n = if alive then serving n restart else ended_ n restart
view deciding keep restart alive n = ended_ n restart
view keeping keep restart alive n = resetting n
view clearing keep restart alive n = resetting n
view ended keep restart alive n = over
view failed keep restart alive n = broken

abbrev pub service : State → Service
service s = view s.position s.keep s.restart s.alive s.children

-- A statement is nothing to the service, or one of its own moves.
abbrev Moves : Service → Service → Type 0
Moves a b = (a ≡ b) ⊎ Decides a b

module _ (s : State) where
  abbrev seen : Position → Service
  seen p = view p s.keep s.restart s.alive s.children

  advance_at-Moves :
      (p : Position)
      → s.position ≡ p
      → Fits p s.keep s.alive s.children
      → Moves (seen p) (service (advance_at p s))
  unfolding advance_at
  advance_at-Moves looping at fits =
      if-intro (λ t. Moves (seen looping) (service t)) s.keep
        (λ on. inl (ap (λ k. view looping k s.restart s.alive s.children) on))
        (λ off. inl (ap (λ k. view looping k s.restart s.alive s.children) off))
  advance_at-Moves spawning at fits = inr starts
  advance_at-Moves waiting at fits =
      if-intro (λ t. Moves (seen waiting) (service t)) s.alive (λ alive. inl (ap seen (sym at)))
        (λ dead. inl (ap (λ a. view waiting s.keep s.restart a s.children) dead))
  advance_at-Moves deciding at (dead, off, started) =
      if-intro (λ t. Moves (seen deciding) (service t)) s.restart
        (λ again.
          inr (
            subst (λ b. Decides (ended_ s.children b) (resetting s.children)) (sym again) restarts))
        (λ last. inr (
          subst (λ k. Decides (seen deciding) (view looping k s.restart s.alive s.children))
            (sym off) (subst (λ b. Decides (ended_ s.children b) over) (sym last) finishes)))
  advance_at-Moves keeping at fits = inl refl
  advance_at-Moves clearing at (dead, on, started) = inr (
      subst (λ k. Decides (resetting s.children) (view looping k false s.alive s.children)) (sym on)
        takes_back)
  advance_at-Moves ended at fits = inl (ap seen (sym at))
  advance_at-Moves failed at fits = inl (ap seen (sym at))

-- A signal that is handled after a first start sets the wish, which is all that the service hears.
hear-view :
    (signal : Signal) (p : Position) (keep restart alive : Bool) (n : ℕ)
    → hear signal (view p keep restart alive (suc n)) ≡ view p keep (wished signal) alive (suc n)
hear-view signal looping true restart alive n = refl
hear-view signal looping false restart alive n = refl
hear-view signal spawning keep restart alive n = refl
hear-view signal waiting keep restart true n = refl
hear-view signal waiting keep restart false n = refl
hear-view signal deciding keep restart alive n = refl
hear-view signal keeping keep restart alive n = refl
hear-view signal clearing keep restart alive n = refl
hear-view signal ended keep restart alive n = refl
hear-view signal failed keep restart alive n = refl

-- Without a process it breaks what was to be started first.
hear-broken :
    (signal : Signal) (p : Position) (keep restart alive : Bool)
    → Fits p keep alive 0
    → running p ≡ true
    → hear signal (view p keep restart alive 0) ≡ broken
unfolding running
hear-broken signal looping true restart alive fits on = refl
hear-broken signal looping false restart alive (dead, loops) on = absurd (ground arith)
hear-broken signal spawning keep restart alive fits on = refl
hear-broken signal waiting keep restart alive (off, started) on = absurd (omega arith)
hear-broken signal deciding keep restart alive (dead, off, started) on = absurd (omega arith)
hear-broken signal keeping keep restart alive (dead, off, started) on = absurd (omega arith)
hear-broken signal clearing keep restart alive (dead, keeps, started) on = absurd (omega arith)
hear-broken signal ended keep restart alive fits on = absurd (cc)
hear-broken signal failed keep restart alive fits on = absurd (cc)

-- Where the program has ended or failed, nothing is heard.
hear-over :
    (signal : Signal) (p : Position) (keep restart alive : Bool) (n : ℕ)
    → running p ≡ false
    → hear signal (view p keep restart alive n) ≡ view p keep restart alive n
unfolding running
hear-over signal ended keep restart alive n off = refl
hear-over signal failed keep restart alive n off = refl
hear-over signal looping keep restart alive n off = absurd (cc)
hear-over signal spawning keep restart alive n off = absurd (cc)
hear-over signal waiting keep restart alive n off = absurd (cc)
hear-over signal deciding keep restart alive n off = absurd (cc)
hear-over signal keeping keep restart alive n off = absurd (cc)
hear-over signal clearing keep restart alive n off = absurd (cc)

module _ (s : State) (w : WellFormed s) (on : running s.position ≡ true) where
  send_to-hear :
      (n : ℕ) (heard_ sent_ : Signal)
      → s.children ≡ n
      → hear heard_ (service s)
        ≡ service (send_to (newest n) sent_ (record s { restart = wished heard_ }))
  unfolding send_to
  send_to-hear zero heard_ sent_ first =
      ap (λ n. hear heard_ (view s.position s.keep s.restart s.alive n)) first
      ∙ hear-broken heard_ s.position s.keep s.restart s.alive
          (subst (Fits s.position s.keep s.alive) first w.position_fits) on
  send_to-hear (suc n) heard_ sent_ later =
      ap (λ m. hear heard_ (view s.position s.keep s.restart s.alive m)) later
      ∙ hear-view heard_ s.position s.keep s.restart s.alive n
      ∙ ap (view s.position s.keep (wished heard_) s.alive) (sym later)
      ∙ if-intro (λ t. service (record s { restart = wished heard_ }) ≡ service t) s.alive
          (λ alive. refl) (λ dead. refl)

  sent_on :
      (heard_ sent_ : Signal)
      → hear heard_ (service s)
        ≡ service (send_to s.process sent_ (record s { restart = wished heard_ }))
  sent_on heard_ sent_ =
      send_to-hear s.children heard_ sent_ refl
      ∙ ap (λ o. service (send_to o sent_ (record s { restart = wished heard_ })))
          (sym w.process_newest)

  handle_signal-hear :
      (signal : Signal) → hear signal (service s) ≡ service (handle_signal signal s)
  unfolding handle_signal send_signal
  handle_signal-hear hup = sent_on hup term
  handle_signal-hear term = sent_on term term
  handle_signal-hear int = sent_on int int

receive-hear :
    (s : State) (signal : Signal)
    → WellFormed s
    → hear signal (service s) ≡ service (receive signal s)
unfolding receive
receive-hear s signal w =
    if-intro (λ t. hear signal (service s) ≡ service t) (running s.position)
      (λ on. handle_signal-hear s w on signal)
      (λ off. hear-over signal s.position s.keep s.restart s.alive s.children off)

-- Only a child that serves exits.
exit-Suffers :
    (s : State) → WellFormed s → s.alive ≡ true → Suffers exited (service s) (service (exit s))
unfolding exit
exit-Suffers s w alive =
    subst
      (λ a.
        Suffers exited (view s.position s.keep s.restart a s.children)
          (view s.position s.keep s.restart false s.children))
      (sym alive)
      (at s.position (subst (λ a. Fits s.position s.keep a s.children) alive w.position_fits))
  where
    at :
        (p : Position)
        → Fits p s.keep true s.children
        → Suffers exited
            (view p s.keep s.restart true s.children)
            (view p s.keep s.restart false s.children)
    at waiting fits = exits_
    at looping (dead, rest) = absurd (cc)
    at spawning (dead, rest) = absurd (cc)
    at deciding (dead, off, started) = absurd (cc)
    at keeping (dead, off, started) = absurd (cc)
    at clearing (dead, off, started) = absurd (cc)
    at ended (dead, rest) = absurd (cc)
    at failed (dead, rest) = absurd (cc)

moved-Serves :
    {a b c : Service} {happenings : List Happening}
    → Moves a b
    → Serves b happenings c
    → Serves a happenings c
moved-Serves {c = c} {happenings = happenings} (inl same) rest =
    subst (λ x. Serves x happenings c) (sym same) rest
moved-Serves (inr move) rest = decides move rest

Steps-Serves :
    {s t : State} (steps : Steps s t)
    → WellFormed s
    → Serves (service s) (happenings_of steps) (service t)
unfolding advance
Steps-Serves here w = done
Steps-Serves {s = s} (next advances steps) w =
    moved-Serves (advance_at-Moves s s.position refl w.position_fits)
      (Steps-Serves steps (Step-WellFormed advances w))
Steps-Serves {s = s} {t = t} (next (receives signal) steps) w =
    let rest = Steps-Serves steps (Step-WellFormed (receives signal) w) in
    suffers (hears signal)
      (subst (λ a. Serves a (happenings_of steps) (service t)) (sym (receive-hear s signal w)) rest)
Steps-Serves {s = s} (next (exits alive) steps) w =
    suffers (exit-Suffers s w alive) (Steps-Serves steps (Step-WellFormed (exits alive) w))

-- Every run of the program from its start is a run of the service in which the same signals and exits
-- come in the same order. In this run SIGHUP asks for a restart, SIGTERM and SIGINT take that back, an
-- exited child is followed by a new start exactly where the last wish was for one, what comes while
-- the wish is being taken back is lost, and a signal before the first start breaks the program.
pub run-Serves :
    {s : State} (steps : Steps at_start s)
    → Serves (starting 0 false) (happenings_of steps) (service s)
run-Serves steps = Steps-Serves steps at_start-WellFormed
