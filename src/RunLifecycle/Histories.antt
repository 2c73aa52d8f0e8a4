-- ===== src/RunLifecycle/Histories.antt =====
-- Commands given to a run one after the other.
use worldsimulator.Prelude.{ℕ, ◌+◌, ◌≡◌, refl, ◌↔◌, true, false, List, [], ◌∷◌, arith}
use worldsimulator.Prelude.Results.{Result, ok, err, conflict, ◌>>=◌, >>=-eq-ok, ok-injective}
use worldsimulator.RunLifecycle.{
  RunStatus, created, running, paused, completed, failed, stopped, RunCommand, start, pause, resume,
  stop, complete, fail, transition_run_status, is_terminal_run_status,
}

no_error : {s : RunStatus} → ok s ≡ err conflict → ⊥
no_error e = cc

-- Exactly in a terminal status every command is a conflict.
pub terminal_iff_stuck :
    (s : RunStatus)
    → (is_terminal_run_status s ≡ true)
      ↔ ((c : RunCommand) → transition_run_status s c ≡ err conflict)
unfolding is_terminal_run_status transition_run_status
terminal_iff_stuck created = (λ e. absurd (ground arith), λ h. absurd (no_error (h start)))
terminal_iff_stuck running = (λ e. absurd (ground arith), λ h. absurd (no_error (h pause)))
terminal_iff_stuck paused = (λ e. absurd (ground arith), λ h. absurd (no_error (h resume)))
terminal_iff_stuck completed = (λ _ c. refl, λ _. refl)
terminal_iff_stuck failed = (λ _ c. refl, λ _. refl)
terminal_iff_stuck stopped = (λ _ c. refl, λ _. refl)

-- The commands in order, each from the status that the one before returned.
abbrev pub command_all : RunStatus → List RunCommand → Result RunStatus
command_all s [] = ok s
command_all s (c ∷ cs) = transition_run_status s c >>= λ t. command_all t cs

abbrev pub is_pause : RunCommand → ℕ
is_pause pause = 1
is_pause _ = 0

abbrev pub is_resume : RunCommand → ℕ
is_resume resume = 1
is_resume _ = 0

abbrev pub is_start : RunCommand → ℕ
is_start start = 1
is_start _ = 0

-- How often one command occurs in a history.
abbrev pub times : (RunCommand → ℕ) → List RunCommand → ℕ
times is_one [] = 0
times is_one (c ∷ cs) = is_one c + times is_one cs

abbrev pub has_started : RunStatus → ℕ
has_started created = 0
has_started _ = 1

abbrev pub paused_now : RunStatus → ℕ
paused_now paused = 1
paused_now _ = 0

-- Counted over one command: a run starts once, and pauses and resumes in turn while it lives.
abbrev Balanced : (s : RunStatus) (starts pauses resumes : ℕ) (t : RunStatus) → Type 0
Balanced s starts pauses resumes t =
    (starts + has_started s ≡ has_started t)
    × (is_terminal_run_status t ≡ false
        → (is_terminal_run_status s ≡ false) × (pauses + paused_now s ≡ resumes + paused_now t))

step-Balanced :
    (s : RunStatus) (c : RunCommand) {t : RunStatus}
    → transition_run_status s c ≡ ok t
    → Balanced s (is_start c) (is_pause c) (is_resume c) t
unfolding transition_run_status is_terminal_run_status
step-Balanced created start e = rw (← ok-injective e) (refl, λ _. (refl, refl))
step-Balanced running pause e = rw (← ok-injective e) (refl, λ _. (refl, refl))
step-Balanced running stop e = rw (← ok-injective e) (refl, λ l. absurd (ground arith))
step-Balanced running complete e = rw (← ok-injective e) (refl, λ l. absurd (ground arith))
step-Balanced running fail e = rw (← ok-injective e) (refl, λ l. absurd (ground arith))
step-Balanced paused resume e = rw (← ok-injective e) (refl, λ _. (refl, refl))
step-Balanced paused stop e = rw (← ok-injective e) (refl, λ l. absurd (ground arith))
step-Balanced paused complete e = rw (← ok-injective e) (refl, λ l. absurd (ground arith))
step-Balanced s c e = absurd (ground arith)

run-Balanced :
    (s : RunStatus) (cs : List RunCommand) {r : RunStatus}
    → command_all s cs ≡ ok r
    → Balanced s (times is_start cs) (times is_pause cs) (times is_resume cs) r
run-Balanced s [] e = rw (ok-injective e) (omega arith, λ l. (l, omega arith))
run-Balanced s (c ∷ cs) {r} e =
    let (t, one, rest) = >>=-eq-ok (transition_run_status s c) _ e in
    let now = step-Balanced s c one in
    let later = run-Balanced t cs {r = r} rest in
    (
      omega (arith, now.0, later.0),
      λ l. let a = later.1 l in let b = now.1 a.0 in (b.0, omega (arith, a.1, b.1)),
    )

-- A run that went from creation through any accepted commands has been started exactly once, or
-- is still as created; and while it is in no terminal status it was paused as often as resumed,
-- and once more if it is paused now.
pub history_balanced :
    (cs : List RunCommand) {r : RunStatus}
    → command_all created cs ≡ ok r
    → (times is_start cs ≡ has_started r)
      × (is_terminal_run_status r ≡ false → times is_pause cs ≡ times is_resume cs + paused_now r)
history_balanced cs {r} e =
    let b = run-Balanced created cs {r = r} e in (omega (arith, b.0), λ l. omega (arith, (b.1 l).1))
