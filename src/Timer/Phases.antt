-- ===== src/Timer/Phases.antt =====
-- The phases of the timer of pomodoro/src/main_window.c.
use otus_c.Prelude.{
  if◌then◌else◌, suc_eq_zero, ℕ, zero, suc, ◌+◌, ◌-◌, ◌*◌, ◌≡◌, refl, ap, ◌∙◌, Bool, true, false,
  not, arith,
}
use otus_c.Timer.{Settings, TimerState, init_timer_state, update_timer, toggle_timer, ticks}

pub minutes_of : Settings → Bool → ℕ
minutes_of settings work = if work then settings.work_duration else settings.break_duration

abbrev pub state : Bool → ℕ → TimerState
state work n = record { is_running = true; is_work_time = work; remaining_seconds = n }

tick_lem :
    (settings : Settings) (work : Bool) (n : ℕ)
    → (update_timer settings (state work (suc n))).1 ≡ state work n
unfolding update_timer
tick_lem settings work n =
    let p : suc n - 1 ≡ n = omega arith in rw (update_timer, suc_eq_zero n) (ap (state work) p)

phase_lem :
    (settings : Settings) (work : Bool) (n more : ℕ)
    → ticks settings (n + 1 + more) (state work n)
      ≡ ticks settings more (state (not work) (minutes_of settings (not work) * 60))
unfolding ticks update_timer minutes_of
phase_lem settings work zero more = let e : 0 + 1 + more ≡ suc more = omega arith in rw e refl
phase_lem settings work (suc n) more =
    let e : suc n + 1 + more ≡ suc (n + 1 + more) = omega arith in
    rw e (
      ap (ticks settings (n + 1 + more)) (tick_lem settings work n)
      ∙ phase_lem settings work n more)

-- From the start, the work phase ends with tick 60 * work_duration + 1, the break that follows it
-- 60 * break_duration + 1 ticks later, and the timer is then where it was at the start.
pub toggle_timer-cycle :
    (settings : Settings)
    → let started = toggle_timer settings init_timer_state in
      let work = settings.work_duration * 60 + 1 in
      let break = settings.break_duration * 60 + 1 in
      (ticks settings work started ≡ state false (settings.break_duration * 60))
      × (ticks settings (work + break) started ≡ started)
unfolding toggle_timer init_timer_state ticks minutes_of
toggle_timer-cycle settings =
    let w = settings.work_duration * 60 in
    let b = settings.break_duration * 60 in
    let e : w + 1 ≡ w + 1 + 0 = omega arith in
    let e' : b + 1 ≡ b + 1 + 0 = omega arith in
    (
      ap (λ n. ticks settings n (state true w)) e
          ∙ phase_lem settings true w 0
          ∙ stay (state false b),
      phase_lem settings true w (b + 1)
          ∙ ap (λ n. ticks settings n (state false b)) e'
          ∙ phase_lem settings false b 0
          ∙ stay (state true w),
    )
  where
    stay : (s : TimerState) → ticks settings 0 s ≡ s
    stay s = refl
