-- ===== src/Timers.antt =====
-- Timers and round trips of a hub: SetTimer, KillTimer, ArmPumpTimer, On_PITimer and the private
-- topics of HandlePrivate in src/FacadeHub.cpp.
--
-- Each function is one section under m_oCSectPeers, or composes such sections as a handler does. What
-- Windows and the kernel answer is an argument: the tick counts, the place within the second, the id
-- of SetPITimer, 0 when it throws, and the HRESULT of PostMsg.
pub mod Early
pub mod Delivery
pub mod Private
use target_facade.Base.{
  ℕ, zero, suc, ◌+◌, ◌-◌, ◌*◌, ◌%◌, ◌^◌, Bool, true, false, not, ◌&&◌, ◌||◌, List, [], ◌∷◌, ◌++◌,
  Option, none, some, ltb, leb, ◌==◌, if◌then◌else◌, is_some,
}
use target_facade.Base.Lists.{drop}
use target_facade.Base.Table.{Table, row, put, remove}
use target_facade.Base.Text.{WString, equal, is_empty}
use target_facade.Status.{
  HResult, s_ok, s_false, e_pointer, e_invalid_arg, e_out_of_memory, e_pump_thread, e_closed,
  e_no_sink, e_timeout, failed,
}

pub record TimerRow : Type 0 where
  -- 0 until the pump has armed it
  pub kernel_id : ℕ
  pub key : ℕ
  pub deadline : ℕ
  pub rearms : ℕ

pub record PingRow : Type 0 where
  pub sent : ℕ
  pub millisecs : ℕ
  pub answered : Bool

-- m_mapTimers, m_uNextTimerId, m_mapPings and m_uNextPingId
pub record Plumbing : Type 0 where
  pub timers : Table TimerRow
  pub next_timer : ℕ
  pub pings : Table PingRow
  pub next_ping : ℕ

abbrev pub new_plumbing : Plumbing
new_plumbing = record { timers = []; next_timer = 0; pings = []; next_ping = 0 }

abbrev pub max_rearms : ℕ
max_rearms = 2

-- What a handler reads of the machine: the tick count of its test and that of its arming, the
-- milliseconds into the second, the id that SetPITimer answers to a delay, and the conversion to the
-- kernel's P2Pmsecs_t, whose width is the kernel's.
pub record Machine : Type 0 where
  pub now : ℕ
  pub armed_at : ℕ
  pub into_second : ℕ
  pub to_msecs : ℕ → ℕ
  pub set_pi_timer : ℕ → ℕ

abbrev pub drop_timer : ℕ → Plumbing → Plumbing
drop_timer id t = record t { timers = remove id t.timers }

abbrev pub next_id : ℕ → ℕ
next_id n = (n + 1) % 2 ^ 32

-- SetTimer, up to its message to the pump.
unfoldable pub register_timer : ℕ → ℕ → ℕ → Plumbing → Plumbing
register_timer delay key now t =
    let id = next_id t.next_timer in
    record t {
      next_timer = id;
      timers =
          put id (record { kernel_id = 0; key = key; deadline = now + delay; rearms = 0 }) t.timers;
    }

-- SetTimer: what it writes to its out parameter, none for a null pointer.
unfoldable pub set_timer :
    Bool → Bool → ℕ → ℕ → ℕ → HResult → Plumbing → HResult × Option ℕ × Plumbing
set_timer false ext delay key now posted t = (e_pointer, none, t)
set_timer true ext delay key now posted t =
    let made = register_timer delay key now t in
    if not ext
    then (e_no_sink, some 0, t)
    else if failed posted
    then (posted, some 0, drop_timer made.next_timer made)
    else (s_ok, some made.next_timer, made)

unfoldable pub kill_timer : ℕ → HResult → Plumbing → HResult
kill_timer id posted t = if is_some (row id t.timers) then posted else s_false

-- The delay that ArmPumpTimer asks the kernel for.
unfoldable pub arm_delay : ℕ → Bool → Machine → ℕ
arm_delay deadline compensate m =
    let delay = m.to_msecs (deadline - m.armed_at) in
    if ltb m.armed_at deadline
    then (if compensate then m.to_msecs (delay + m.to_msecs m.into_second) else delay)
    else 0

abbrev pub arm_pump_timer : ℕ → Bool → Machine → ℕ
arm_pump_timer deadline compensate m = m.set_pi_timer (arm_delay deadline compensate m)

-- Behind the arming, of either handler: the kernel timer to retract, if any.
unfoldable pub settle_arm : ℕ → ℕ → Plumbing → Option ℕ × Plumbing
settle_arm id kernel t = elim (row id t.timers) [
  | none ↦ (if kernel == 0 then none else some kernel, t)
  | some r ↦
      if kernel == 0
      then (none, drop_timer id t)
      else (none, record t { timers = put id (record r { kernel_id = kernel }) t.timers })
]

-- the private topic of a timer, on the pump
unfoldable pub on_timer_message : ℕ → Machine → Plumbing → Option ℕ × Plumbing
on_timer_message id m t = elim (row id t.timers) [
  | none ↦ (none, t)
  | some r ↦ settle_arm id (arm_pump_timer r.deadline false m) t
]

-- the private topic of a kill, on the pump: the kernel timer to kill, if one was armed
unfoldable pub on_kill_message : ℕ → Plumbing → Option ℕ × Plumbing
on_kill_message id t = elim (row id t.timers) [
  | none ↦ (none, t)
  | some r ↦ (if r.kernel_id == 0 then none else some r.kernel_id, drop_timer id t)
]

-- What a timer that elapsed is taken for: the kernel's own, one to arm again, one that was
-- retracted, or one to deliver with the client's key.
pub data Elapsed : Type 0 where
  stray retracted : Elapsed
  again : ℕ → Elapsed
  due : ℕ → Elapsed

-- The first half of On_PITimer.
unfoldable pub elapse : Bool → ℕ → ℕ → Plumbing → Elapsed × Plumbing
elapse cancel id now t = elim (row id t.timers) [
  | none ↦ (stray, t)
  | some r ↦
      if not cancel && (ltb now r.deadline && ltb r.rearms max_rearms)
      then (
        again r.deadline,
        record t { timers = put id (record r { rearms = r.rearms + 1 }) t.timers },
      )
      else (if cancel then retracted else due r.key, drop_timer id t)
]

-- What On_PITimer does with a timer: it hands it to the base, calls OnTimer with an id and a key,
-- or neither.
pub data Report : Type 0 where
  to_base nothing : Report
  on_timer : ℕ → ℕ → Report

abbrev finish_elapse : Elapsed → Bool → ℕ → Machine → Plumbing → Report × Option ℕ × Plumbing
finish_elapse stray ext id m t = (to_base, none, t)
finish_elapse retracted ext id m t = (nothing, none, t)
finish_elapse (again deadline) ext id m t =
    let s = settle_arm id (arm_pump_timer deadline true m) t in (nothing, s.0, s.1)
finish_elapse (due key) ext id m t = (if ext then on_timer id key else nothing, none, t)

-- On_PITimer, with the kernel timer to retract.
unfoldable pub on_pi_timer : Bool → Bool → ℕ → Machine → Plumbing → Report × Option ℕ × Plumbing
on_pi_timer ext cancel id m t = let e = elapse cancel id m.now t in finish_elapse e.0 ext id m e.1

-- The numbers of a private body, the lowest byte first; none for a body that is too short.
abbrev pub number_of : ℕ → List ℕ → Option ℕ
number_of zero bytes = some 0
number_of (suc width) [] = none
number_of (suc width) (b ∷ bytes) = elim (number_of width bytes) [
  | none ↦ none
  | some high ↦ some (b + 256 * high)
]

pub data PrivateTopic : Type 0 where
  ping_topic pong_topic timer_topic kill_topic post_topic unknown_topic : PrivateTopic

-- What HandlePrivate asks of others: an echo to the sender, a kernel timer to kill, a waiter to
-- release, a call of OnPost.
pub data Effect : Type 0 where
  no_effect : Effect
  echo : WString → List ℕ → Effect
  kill_kernel : ℕ → Effect
  release : ℕ → Effect
  on_post : ℕ → ℕ → Effect

abbrev killed : Option ℕ × Plumbing → Effect × Plumbing
killed (none, t) = (no_effect, t)
killed (some kernel, t) = (kill_kernel kernel, t)

-- the answer of a round trip; a second one changes nothing
unfoldable pub on_pong : ℕ → ℕ → Plumbing → Effect × Plumbing
on_pong id now t = elim (row id t.pings) [
  | none ↦ (no_effect, t)
  | some r ↦ if r.answered then (no_effect, t) else (
    release id,
    record t {
      pings = put id (record r { millisecs = (now - r.sent) % 2 ^ 32; answered = true }) t.pings;
    },
  )
]

abbrev on_own_topic : PrivateTopic → List ℕ → Bool → Machine → Plumbing → Effect × Plumbing
on_own_topic timer_topic body ext m t = elim (number_of 4 body) [
  | none ↦ (no_effect, t)
  | some id ↦ killed (on_timer_message id m t)
]
on_own_topic kill_topic body ext m t = elim (number_of 4 body) [
  | none ↦ (no_effect, t)
  | some id ↦ killed (on_kill_message id t)
]
on_own_topic post_topic body ext m t = elim (number_of 4 body) [
  | none ↦ (no_effect, t)
  | some key ↦ elim (number_of 8 (drop 4 body)) [
    | none ↦ (no_effect, t)
    | some context ↦ (if ext then on_post key context else no_effect, t)
  ]
]
on_own_topic _ body ext m t = (no_effect, t)

-- HandlePrivate; a body that is not there is an empty one.
unfoldable pub handle_private :
    WString → PrivateTopic → WString → List ℕ → Bool → Machine → Plumbing → Effect × Plumbing
handle_private address ping_topic source body ext m t =
    (if is_empty source then no_effect else echo source body, t)
handle_private address pong_topic source body ext m t = elim (number_of 4 body) [
  | none ↦ (no_effect, t)
  | some id ↦ on_pong id m.now t
]
handle_private address topic source body ext m t =
    let own = on_own_topic topic body ext m t in
    if equal source address then own else (no_effect, t)

-- Ping, up to its message: the row that it waits on.
unfoldable pub register_ping : ℕ → Plumbing → Plumbing
register_ping now t =
    let id = next_id t.next_ping in
    record t {
      next_ping = id;
      pings = put id (record { sent = now; millisecs = 0; answered = false }) t.pings;
    }

-- Ping behind its wait, by what came of the post and of the wait.
unfoldable pub collect_ping : HResult → ℕ → Plumbing → HResult × Option ℕ × Plumbing
collect_ping waited id t =
    let left = record t { pings = remove id t.pings } in
    if failed waited then (waited, none, left) else elim (row id t.pings) [
      | none ↦ (e_timeout, none, left)
      | some r ↦ if r.answered then (waited, some r.millisecs, left) else (e_timeout, none, left)
    ]

abbrev pub ping_default_millisecs : ℕ
ping_default_millisecs = 5000

abbrev pub ping_max_millisecs : ℕ
ping_max_millisecs = 60000

-- the milliseconds that Ping waits
unfoldable pub ping_budget : ℕ → ℕ
ping_budget timeout =
    let asked = if timeout == 0 then ping_default_millisecs else timeout in
    if ltb ping_max_millisecs asked then ping_max_millisecs else asked

-- What Ping finds: it is called on the pump of a hub that has its own, the event is made, the hub is
-- closing, the tick count, the answer of PostMsg, what happens to the tables until the wait of so many
-- milliseconds is over, and whether the event was set by then.
pub record PingCourse : Type 0 where
  pub on_pump : Bool
  pub event_made : Bool
  pub closing : Bool
  pub sent : ℕ
  pub posted : HResult
  pub meanwhile : ℕ → Plumbing → Plumbing
  pub signalled : ℕ → Bool

abbrev wait_result : HResult → Bool → HResult
wait_result posted signalled =
    if failed posted then posted else if signalled then s_ok else e_timeout

-- Ping; none where its out parameter is not written, or stays 0.
unfoldable pub ping :
    Option WString → Bool → ℕ → PingCourse → Plumbing → HResult × Option ℕ × Plumbing
ping none wants timeout c t = (e_pointer, none, t)
ping (some peer) wants timeout c t =
    let asked = register_ping c.sent t in
    let budget = ping_budget timeout in
    let waited = wait_result c.posted (c.signalled budget) in
    if not wants
    then (e_pointer, none, t)
    else if is_empty peer
    then (e_invalid_arg, none, t)
    else if c.on_pump
    then (e_pump_thread, none, t)
    else if not c.event_made
    then (e_out_of_memory, none, t)
    else if c.closing
    then (e_closed, none, t)
    else collect_ping waited asked.next_ping (c.meanwhile budget asked)
