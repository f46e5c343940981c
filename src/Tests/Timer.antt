-- ===== src/Tests/Timer.antt =====
-- A run of the timer.
use otus_c.Prelude.{◌≡◌, false}
use otus_c.Timer.{Settings, init_timer_state, toggle_timer, ticks}
use otus_c.Timer.Phases.{state, toggle_timer-cycle}

abbrev usual : Settings
usual = record { work_duration = 25; break_duration = 5 }

toggle_timer-cycle_example :
    (ticks usual 1501 (toggle_timer usual init_timer_state) ≡ state false 300)
    × (ticks usual 1802 (toggle_timer usual init_timer_state) ≡ toggle_timer usual init_timer_state)
toggle_timer-cycle_example = toggle_timer-cycle usual
