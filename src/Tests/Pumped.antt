-- ===== src/Tests/Pumped.antt =====
-- Timers and round trips at inputs where the theorems apply.
use target_facade.Base.{◌%◌, ◌^◌, ◌+◌, ◌-◌, ◌≤◌, ◌≡◌, refl, true, false, [], ◌∷◌, none, some, arith}
use target_facade.Base.Text.{codes}
use target_facade.Base.Table.{row}
use target_facade.Status.{s_ok, e_timeout}
use target_facade.Timers.{Plumbing, TimerRow, Machine, new_plumbing, arm_delay, PingCourse, ping}
use target_facade.Timers.Early.{
  registers, settles, elapses, advance_all, new_trace, OnTime, times_due, times_set,
  elapse-OnTime_always,
}
use target_facade.Timers.Delivery.{truncated, arm_delay-bounds}
use target_facade.Timers.Private.{answered_twice, ping-pong}

abbrev early_machine : Machine
early_machine = record {
  now = 5;
  armed_at = 5;
  into_second = 5;
  to_msecs = λ n. n % 2 ^ 32;
  set_pi_timer = λ delay. delay + 1;
}

abbrev one_row : TimerRow
one_row = record { kernel_id = 1; key = 7; deadline = 200; rearms = 0 }

abbrev one_timer : Plumbing
one_timer = record new_plumbing { timers = (1, one_row) ∷ []; next_timer = 1 }

elapse-OnTime_always_example :
    let ss = registers 200 7 0 ∷ settles 1 9 ∷ elapses false 1 5 ∷ elapses false 1 210 ∷ [] in
    let tr = advance_all ss new_trace in
    OnTime tr tr.heard × (times_due 1 tr.heard ≤ times_set 1 tr.set)
elapse-OnTime_always_example =
    elapse-OnTime_always
      (registers 200 7 0 ∷ settles 1 9 ∷ elapses false 1 5 ∷ elapses false 1 210 ∷ []) 1

arm_delay-bounds_example :
    (truncated 1005 + arm_delay 200 true early_machine ≤ truncated 2100 → 200 ≤ 5 + (2100 - 1005))
    × (truncated 1005 + arm_delay 200 false early_machine ≤ truncated 2100
        → 200 ≤ 5 + (2100 - 1005) + 999)
arm_delay-bounds_example =
    arm_delay-bounds 200 1005 2100 4294967295 early_machine (omega arith) (omega arith)
      (λ n small. omega arith) (omega arith)

abbrev course : PingCourse
course = record {
  on_pump = false;
  event_made = true;
  closing = false;
  sent = 100;
  posted = s_ok;
  meanwhile = λ budget t. t;
  signalled = λ budget. false;
}

ping-pong_example :
    let answered =
      ping
        (some (codes "App.B"))
        true
        0
        (record course { meanwhile = λ b. answered_twice 1 142 150; signalled = λ b. true })
        one_timer in
    let silent =
      ping
        (some (codes "App.B"))
        true
        0
        (record course { meanwhile = λ b u. u; signalled = λ b. false })
        one_timer in
    ((answered.0 ≡ s_ok) × (answered.1 ≡ some 42) × (row 1 answered.2.pings ≡ none))
    × ((silent.0 ≡ e_timeout) × (silent.1 ≡ none) × (row 1 silent.2.pings ≡ none))
ping-pong_example =
    ping-pong (codes "App.B") 0 142 150 course one_timer refl (refl, refl, refl) refl (omega arith)
      (omega arith)
