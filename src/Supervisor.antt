-- ===== src/Supervisor.antt =====
-- docker/varnish/handler.py: a supervisor that starts a service, passes signals on to it and starts
-- it again after SIGHUP. A state of the program and its child moves by a statement of the program, by
-- a signal that Python handles between two statements, or by the exit of the child.
pub mod Runs
pub mod Invariant
pub mod Wishes
pub mod Service
use mathlib.Core.List.{List, [], ◌∷◌}
use sta_generation_service.Prelude.{
  ℕ, zero, suc, Bool, true, false, Option, none, some, if◌then◌else◌, ◌≡◌,
}

pub data Signal : Type 0 where
  hup : Signal
  term : Signal
  int : Signal

-- What the program does next: the test of the loop with the reset of `keep`, Popen, wait(), the test of `restart`, the two
-- assignments under it, or nothing, at its end or after an AttributeError.
pub data Position : Type 0 where
  looping : Position
  spawning : Position
  waiting : Position
  deciding : Position
  keeping : Position
  clearing : Position
  ended : Position
  failed : Position

-- The globals of the program, the number of children started, whether the newest one still runs, and
-- the signals that were sent to children, the last one first.
pub record State : Type 0 where
  pub position : Position
  pub keep : Bool
  pub restart : Bool
  pub process : Option ℕ
  pub children : ℕ
  pub alive : Bool
  pub sent : List (ℕ × Signal)

abbrev pub at_start : State
at_start = record {
  position = looping;
  keep = true;
  restart = false;
  process = none;
  children = 0;
  alive = false;
  sent = [];
}

-- process.send_signal(signal): nothing is sent to a child that has exited, and None has no method.
send_to : Option ℕ → Signal → State → State
send_to none signal s = record s { position = failed }
send_to (some child) signal s = if s.alive then record s { sent = (child, signal) ∷ s.sent } else s

unfoldable pub send_signal : Signal → State → State
unfolding send_to
send_signal signal s = send_to s.process signal s

-- hup_handler, and propagate_handler for the other two
unfoldable pub handle_signal : Signal → State → State
unfolding send_signal
handle_signal hup s = send_signal term (record s { restart = true })
handle_signal term s = send_signal term (record s { restart = false })
handle_signal int s = send_signal int (record s { restart = false })

-- A signal is handled while the program runs.
unfoldable pub running : Position → Bool
running ended = false
running failed = false
running position = true

unfoldable pub receive : Signal → State → State
unfolding running handle_signal
receive signal s = if running s.position then handle_signal signal s else s

-- One statement of the loop.
advance_at : Position → State → State
advance_at looping s =
    if s.keep then record s { position = spawning; keep = false } else record s { position = ended }
advance_at spawning s = record s {
  position = waiting;
  process = some s.children;
  children = suc s.children;
  alive = true;
}
advance_at waiting s = if s.alive then s else record s { position = deciding }
advance_at deciding s =
    if s.restart then record s { position = keeping } else record s { position = looping }
advance_at keeping s = record s { position = clearing; keep = true }
advance_at clearing s = record s { position = looping; restart = false }
advance_at ended s = s
advance_at failed s = s

unfoldable pub advance : State → State
unfolding advance_at
advance s = advance_at s.position s

unfoldable pub exit : State → State
exit s = record s { alive = false }

-- The program advances, or a signal comes, or the child exits.
pub data Step : State → State → Type 0 where
  advances : {s : State} → Step s (advance s)
  receives : {s : State} (signal : Signal) → Step s (receive signal s)
  exits : {s : State} → s.alive ≡ true → Step s (exit s)

pub data Steps : State → State → Type 0 where
  here : {s : State} → Steps s s
  next : {r s t : State} → Step r s → Steps s t → Steps r t
