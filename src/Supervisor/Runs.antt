-- ===== src/Supervisor/Runs.antt =====
-- The loop always comes to a wait or to its end, and signals that it meets before are lost.
use mathlib.Core.List.{List}
use sta_generation_service.Prelude.{
  ℕ, suc, Bool, true, false, Option, some, ◌≡◌, refl, ap, ◌∙◌, inl, inr, ◌⊎◌, sym, subst,
}
use sta_generation_service.Supervisor.{
  Signal, Position, looping, spawning, waiting, deciding, keeping, clearing, ended, failed, State,
  at_start, running, advance_at, advance, Steps,
}
use sta_generation_service.Supervisor.Invariant.{newest, Fits, reached-WellFormed}
use sta_generation_service.Supervisor.Wishes.{
  receive_all, settle, wish, restarting, resting, receive_all-resting,
}

-- The program waits for a child that runs, or no longer runs itself.
abbrev pub Settled : State → Type 0
Settled s = ((s.position ≡ waiting) × (s.alive ≡ true)) ⊎ (running s.position ≡ false)

settle_at :
    (p : Position) (keep restart alive : Bool) (process : Option ℕ) (n : ℕ)
    (sent : List (ℕ × Signal))
    → let s : State = record {
      position = p;
      keep = keep;
      restart = restart;
      process = process;
      children = n;
      alive = alive;
      sent = sent;
    } in
      Settled (settle s) × (advance (settle s) ≡ settle s)
unfolding advance advance_at running
settle_at looping true restart alive process n sent = (inl (refl, refl), refl)
settle_at looping false restart alive process n sent = (inr refl, refl)
settle_at spawning keep restart alive process n sent = (inl (refl, refl), refl)
settle_at waiting keep restart true process n sent = (inl (refl, refl), refl)
settle_at waiting keep true false process n sent = (inl (refl, refl), refl)
settle_at waiting true false false process n sent = (inl (refl, refl), refl)
settle_at waiting false false false process n sent = (inr refl, refl)
settle_at deciding keep true alive process n sent = (inl (refl, refl), refl)
settle_at deciding true false alive process n sent = (inl (refl, refl), refl)
settle_at deciding false false alive process n sent = (inr refl, refl)
settle_at keeping keep restart alive process n sent = (inl (refl, refl), refl)
settle_at clearing true restart alive process n sent = (inl (refl, refl), refl)
settle_at clearing false restart alive process n sent = (inr refl, refl)
settle_at ended keep restart alive process n sent = (inr refl, refl)
settle_at failed keep restart alive process n sent = (inr refl, refl)

-- From any state, six statements bring the program to a wait for a child that runs, to its end or to
-- its failure, and no statement leads on from there: the loop never spins.
pub settle-Settled : (s : State) → Settled (settle s) × (advance (settle s) ≡ settle s)
settle-Settled s = settle_at s.position s.keep s.restart s.alive s.process s.children s.sent

settle-resting :
    (p : Position) (keep b : Bool) (child : ℕ) (sent : List (ℕ × Signal))
    → restarting p keep ≡ true
    → let t = settle (resting keep child (suc child) sent p b) in
      (t.position ≡ waiting) × (t.alive ≡ true) × (t.process ≡ some (suc child)) × (t.sent ≡ sent)
unfolding advance advance_at
settle-resting looping true b child sent on = (refl, refl, refl, refl)
settle-resting looping false b child sent on = absurd (cc)
settle-resting spawning keep b child sent on = (refl, refl, refl, refl)
settle-resting keeping keep b child sent on = (refl, refl, refl, refl)
settle-resting clearing true b child sent on = (refl, refl, refl, refl)
settle-resting clearing false b child sent on = absurd (cc)
settle-resting waiting keep b child sent on = absurd (cc)
settle-resting deciding keep b child sent on = absurd (cc)
settle-resting ended keep b child sent on = absurd (cc)
settle-resting failed keep b child sent on = absurd (cc)

restarting-dead :
    (p : Position) (keep k alive : Bool) (n : ℕ)
    → restarting p keep ≡ true
    → Fits p k alive n
    → (alive ≡ false) × (running p ≡ true)
unfolding running
restarting-dead looping keep k alive n on (dead, rest) = (dead, refl)
restarting-dead spawning keep k alive n on (dead, rest) = (dead, refl)
restarting-dead keeping keep k alive n on (dead, off, started) = (dead, refl)
restarting-dead clearing keep k alive n on (dead, off, started) = (dead, refl)
restarting-dead waiting keep k alive n on fits = absurd (cc)
restarting-dead deciding keep k alive n on fits = absurd (cc)
restarting-dead ended keep k alive n on fits = absurd (cc)
restarting-dead failed keep k alive n on fits = absurd (cc)

-- Between the decision to start the service again and its start every signal is lost, SIGTERM and
-- SIGINT too: whichever come there, the next child is started, and nothing is sent to any child.
pub lost-signals :
    (s : State) (child : ℕ) (signals : List Signal)
    → Steps at_start s
    → restarting s.position s.keep ≡ true
    → s.children ≡ suc child
    → let t = settle (receive_all signals s) in
      (t.position ≡ waiting) × (t.alive ≡ true) × (t.process ≡ some (suc child)) × (t.sent ≡ s.sent)
lost-signals s child signals steps on started =
    let w = reached-WellFormed steps in
    let (dead, runs) =
      restarting-dead s.position s.keep s.keep s.alive s.children on w.position_fits in
    let process = w.process_newest ∙ ap newest started in
    let same : s ≡ resting s.keep child (suc child) s.sent s.position s.restart = λ i. record {
      position = s.position;
      keep = s.keep;
      restart = s.restart;
      process = process i;
      children = started i;
      alive = dead i;
      sent = s.sent;
    } in
    let after =
      ap (receive_all signals) same
      ∙ receive_all-resting s.keep child (suc child) s.sent s.position signals s.restart runs in
    subst
      (λ u.
        let t = settle u in
        (t.position ≡ waiting)
        × (t.alive ≡ true)
        × (t.process ≡ some (suc child))
        × (t.sent ≡ s.sent))
      (sym after) (settle-resting s.position s.keep (wish s.restart signals) child s.sent on)
