-- ===== src/Timer.antt =====
-- pomodoro/src/main_window.c: the state of the timer, its tick and its start button. The durations
-- are numbers of minutes that are not negative; the spin buttons give 1 to 120.
use otus_c.Prelude.{◌==◌, if◌then◌else◌, ℕ, zero, suc, ◌-◌, ◌*◌, ◌/◌, ◌%◌, Bool, true, false, not}
pub mod Phases

-- The settings that the timer reads.
pub record Settings : Type 0 where
  pub work_duration : ℕ
  pub break_duration : ℕ

-- The state without timer_id, the handle of the timeout.
pub record TimerState : Type 0 where
  pub is_running : Bool
  pub is_work_time : Bool
  pub remaining_seconds : ℕ

-- What the label shows: the message of a new phase, or the phase with minutes and seconds.
pub data Label : Type 0 where
  message : Bool → Label
  clock : Bool → ℕ → ℕ → Label

pub init_timer_state : TimerState
init_timer_state = record { is_running = false; is_work_time = true; remaining_seconds = 0 }

pub update_timer : Settings → TimerState → Label × TimerState
update_timer settings s =
    if s.remaining_seconds == 0
    then (let work = not s.is_work_time in
        let new_time = if work then settings.work_duration else settings.break_duration in
        (message work, record s { is_work_time = work; remaining_seconds = new_time * 60 }))
    else (
      clock s.is_work_time (s.remaining_seconds / 60) (s.remaining_seconds % 60),
      record s { remaining_seconds = s.remaining_seconds - 1 },
    )

pub toggle_timer : Settings → TimerState → TimerState
toggle_timer settings s = if s.is_running then record s { is_running = false } else record {
  is_running = true;
  is_work_time = true;
  remaining_seconds = settings.work_duration * 60;
}

-- The state after some calls of update_timer by the timeout.
pub ticks : Settings → ℕ → TimerState → TimerState
ticks settings zero s = s
ticks settings (suc n) s = ticks settings n (update_timer settings s).1
