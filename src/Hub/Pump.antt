-- ===== src/Hub/Pump.antt =====
-- Who runs the pump: PumpOnce, Pump and WaitSlice of src/FacadeHub.cpp.
pub mod Latch
use target_facade.Base.{
  ℕ, zero, suc, Bool, true, false, not, ◌&&◌, ◌||◌, Option, none, some, ◌==◌, if◌then◌else◌,
}
use target_facade.Status.{HResult, s_ok, s_false, e_closed, e_not_pumped, e_pump_owner}
use target_facade.Hub.{Hub, on_callbacks}
use target_facade.Hub.Kernel.{
  Kernel, Turn, turn_threw, turned, PumpSignal, hub_close, hub_close_on_idle, other_signal,
}

abbrev pub latch : Hub → Hub
latch h = record h { pump_done = true }

abbrev pub drain_slice_millisecs : ℕ
drain_slice_millisecs = 25

abbrev pub result_of : Turn → ℕ
result_of turn_threw = 0
result_of (turned result signal) = result

module _ (k : Kernel) where
  -- The connections and pumps that a closing hub passes the signal on to.
  abbrev pub pass_close : Bool → Hub → k.State → HResult × Hub × k.State
  pass_close destroy h st =
      let s = k.signal_all destroy st in (e_closed, latch (on_callbacks s.0 h), s.1)

  abbrev pub read_signal : ℕ → PumpSignal → Hub → k.State → HResult × Hub × k.State
  read_signal result hub_close h st = pass_close true h st
  read_signal result hub_close_on_idle h st = pass_close false h st
  read_signal result other_signal h st = (if result == k.pump_timeout then s_false else s_ok, h, st)

  -- What stands behind PumpP2Pmsg.
  unfoldable pub read_turn : Turn → Hub → k.State → HResult × Hub × k.State
  read_turn turn_threw h st = (e_closed, latch h, st)
  read_turn (turned zero signal) h st = (e_closed, latch h, st)
  read_turn (turned (suc n) signal) h st = read_signal (suc n) signal h st

  -- The code, with the hub and the kernel behind one turn of the pump.
  unfoldable pub pump_once : ℕ → Hub → k.State → HResult × Hub × k.State
  pump_once millisecs h st =
      let t = k.pump_msg millisecs st in read_turn t.0 (on_callbacks t.1 h) t.2

  unfoldable pub pump : ℕ → Hub → k.State → HResult × Hub × k.State
  pump millisecs h st =
      if not h.caller_pumped
      then (e_not_pumped, h, st)
      else if not (k.owns_pump st)
      then (e_pump_owner, h, st)
      else if h.pump_done
      then (e_closed, h, st)
      else pump_once millisecs h st

  -- What Pump leaves in the caller's outWhat: 0, or the result of the turn that it ran.
  unfoldable pub pump_what : ℕ → Hub → k.State → ℕ
  pump_what millisecs h st =
      if not h.caller_pumped || not (k.owns_pump st) || h.pump_done
      then 0
      else result_of (k.pump_msg millisecs st).0

  abbrev pub doze : ℕ → Hub → k.State → Hub × k.State
  doze millisecs h st = let s = k.sleep millisecs st in (on_callbacks s.0 h, s.1)

  unfoldable pub wait_slice : Hub → k.State → Hub × k.State
  wait_slice h st =
      let r = pump_once drain_slice_millisecs h st in
      if not h.caller_pumped || not (k.owns_pump st) || h.pump_done
      then doze drain_slice_millisecs h st
      else (r.1, r.2)
