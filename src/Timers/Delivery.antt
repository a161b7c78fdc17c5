-- ===== src/Timers/Delivery.antt =====
-- How soon a timer that elapses is delivered, and how early the kernel may wake it.
use target_facade.Base.{
  ℕ, ◌+◌, ◌-◌, ◌*◌, ◌/◌, ◌%◌, ◌≤◌, ◌≡◌, ◌≢◌, Bool, true, false, ◌&&◌, List, [], ◌∷◌, Option, none,
  some, arith, ltb, Bool-cases, inl, inr,
}
use target_facade.Timers.{
  TimerRow, Plumbing, Machine, to_base, nothing, on_timer, on_pi_timer, arm_delay, arm_pump_timer,
  max_rearms,
}

-- The pump wakes the timer on these machines, until OnTimer is called: the key of that call.
unfoldable pub wake : ℕ → List Machine → Plumbing → Option ℕ × Plumbing
wake id [] t = (none, t)
wake id (m ∷ ms) t =
    let r = on_pi_timer true false id m t in
    elim r.0 [
      | to_base ↦ wake id ms r.2
      | nothing ↦ wake id ms r.2
      | on_timer i key ↦ (some key, r.2)
    ]

-- SetPITimer never answers 0
abbrev pub Arms : Machine → Type 0
Arms m = (delay : ℕ) → m.set_pi_timer delay ≢ 0

abbrev is_early : Machine → TimerRow → Bool
is_early m r = ltb m.now r.deadline && ltb r.rearms max_rearms

-- the row behind a re-arm
abbrev rearmed : Machine → TimerRow → TimerRow
rearmed m r = record r { kernel_id = arm_pump_timer r.deadline true m; rearms = r.rearms + 1 }

-- The top of the second that a system time, in milliseconds, lies in.
abbrev pub truncated : ℕ → ℕ
truncated s = s / 1000 * 1000

-- The conversion to P2Pmsecs_t keeps the numbers up to `most`.
abbrev pub KeepsMsecs : Machine → ℕ → Type 0
KeepsMsecs m most = (n : ℕ) → n ≤ most → m.to_msecs n ≡ n

-- A timer whose deadline is at most `most - 999` milliseconds away, armed at system time `s` where
-- P2Pmsecs_t keeps the numbers up to `most`, which the kernel wakes at a time whose second has reached
-- the armed second and the delay: when the tick count and the system time advance alike, the re-arm of
-- On_PITimer is not woken before the deadline, and the first arm less than a second before it.
pub arm_delay-bounds :
    (deadline s s' most : ℕ) (m : Machine)
    → m.into_second ≡ s % 1000
    → s ≤ s'
    → KeepsMsecs m most
    → deadline + 999 ≤ m.armed_at + most
    → (truncated s + arm_delay deadline true m ≤ truncated s' → deadline ≤ m.armed_at + (s' - s))
      × (truncated s + arm_delay deadline false m ≤ truncated s'
          → deadline ≤ m.armed_at + (s' - s) + 999)
unfolding arm_delay
arm_delay-bounds deadline s s' most m place later keeps near =
    elim (Bool-cases (ltb m.armed_at deadline)) [
      | inl ahead ↦
          let plain = keeps (deadline - m.armed_at) (ground arith) in
          let within = keeps m.into_second (ground arith) in
          let both = keeps (deadline - m.armed_at + m.into_second) (ground arith) in
          (λ woken. ground arith, λ woken. ground arith)
      | inr past ↦ (λ woken. ground arith, λ woken. ground arith)
    ]
