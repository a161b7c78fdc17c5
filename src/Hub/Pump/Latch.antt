-- ===== src/Hub/Pump/Latch.antt =====
-- The latch of a pump that was told to stop, and a slice of waiting on a hub's records.
use target_facade.Base.{
  ℕ, zero, suc, ◌≡◌, inl, inr, refl, ◌∙◌, true, false, not, ◌||◌, arith, Bool-cases,
}
use target_facade.Status.{e_closed}
use target_facade.Hub.{Hub, on_callbacks}
use target_facade.Hub.Records.{
  SameRecords, SameRecords-refl, SameRecords-trans, on_callbacks-SameRecords,
}
use target_facade.Hub.Kernel.{
  Kernel, Turn, turn_threw, turned, hub_close, hub_close_on_idle, other_signal,
}
use target_facade.Hub.Pump.{latch, read_turn, pump_once, pump, wait_slice, drain_slice_millisecs}

latch-SameRecords : (h : Hub) → SameRecords (latch h) h
latch-SameRecords h = record {
  armed = refl;
  unretired = refl;
  address = refl;
  pumped = refl;
  trusted = refl;
}

module _ (k : Kernel) where
  read_turn-SameRecords : (t : Turn) (h : Hub) (st : k.State) → SameRecords (read_turn k t h st).1 h
  unfolding read_turn
  read_turn-SameRecords turn_threw h st = latch-SameRecords h
  read_turn-SameRecords (turned zero signal) h st = latch-SameRecords h
  read_turn-SameRecords (turned (suc n) hub_close) h st =
      let s = k.signal_all true st in
      SameRecords-trans (latch-SameRecords (on_callbacks s.0 h)) (on_callbacks-SameRecords s.0 h)
  read_turn-SameRecords (turned (suc n) hub_close_on_idle) h st =
      let s = k.signal_all false st in
      SameRecords-trans (latch-SameRecords (on_callbacks s.0 h)) (on_callbacks-SameRecords s.0 h)
  read_turn-SameRecords (turned (suc n) other_signal) h st = SameRecords-refl h

  pump_once-SameRecords :
      (millisecs : ℕ) (h : Hub) (st : k.State) → SameRecords (pump_once k millisecs h st).1 h
  unfolding pump_once
  pump_once-SameRecords millisecs h st =
      let t = k.pump_msg millisecs st in
      SameRecords-trans (read_turn-SameRecords t.0 (on_callbacks t.1 h) t.2)
        (on_callbacks-SameRecords t.1 h)

  pub wait_slice-SameRecords : (h : Hub) (st : k.State) → SameRecords (wait_slice k h st).0 h
  unfolding wait_slice
  wait_slice-SameRecords h st =
      elim (Bool-cases (not h.caller_pumped || not (k.owns_pump st) || h.pump_done)) [
        | inl sleeps ↦ rw sleeps (on_callbacks-SameRecords (k.sleep drain_slice_millisecs st).0 h)
        | inr works ↦ rw works (pump_once-SameRecords drain_slice_millisecs h st)
      ]

  read_turn-latched :
      (t : Turn) (h : Hub) (st : k.State)
      → (read_turn k t h st).0 ≡ e_closed
      → (read_turn k t h st).1.pump_done ≡ true
  unfolding read_turn
  read_turn-latched turn_threw h st e = refl
  read_turn-latched (turned zero signal) h st e = refl
  read_turn-latched (turned (suc n) hub_close) h st e = refl
  read_turn-latched (turned (suc n) hub_close_on_idle) h st e = refl
  read_turn-latched (turned (suc n) other_signal) h st e = ground arith

  pump-pumped :
      (millisecs : ℕ) (h : Hub) (st : k.State)
      → (pump k millisecs h st).1.caller_pumped ≡ h.caller_pumped
  unfolding pump
  pump-pumped millisecs h st = ground (arith, (pump_once-SameRecords millisecs h st).pumped)

  pump-latched :
      (millisecs : ℕ) (h : Hub) (st : k.State)
      → (pump k millisecs h st).0 ≡ e_closed
      → (h.caller_pumped ≡ true) × ((pump k millisecs h st).1.pump_done ≡ true)
  unfolding pump pump_once
  pump-latched millisecs h st e =
      let t = k.pump_msg millisecs st in
      (ground arith, ground (arith, read_turn-latched t.0 (on_callbacks t.1 h) t.2))

  pump-stopped :
      (millisecs : ℕ) (h : Hub) (st : k.State)
      → h.caller_pumped ≡ true
      → k.owns_pump st ≡ true
      → h.pump_done ≡ true
      → pump k millisecs h st ≡ (e_closed, h, st)
  unfolding pump
  pump-stopped millisecs h st c o d = ground arith

  -- Once Pump has answered that the pump is closed, every later Pump of the hub on its own thread
  -- answers the same and runs nothing.
  pub pump-closed :
      (millisecs later : ℕ) (h : Hub) (st now : k.State)
      → (pump k millisecs h st).0 ≡ e_closed
      → k.owns_pump now ≡ true
      → pump k later (pump k millisecs h st).1 now ≡ (e_closed, (pump k millisecs h st).1, now)
  pump-closed millisecs later h st now e owner =
      let (pumped, done) = pump-latched millisecs h st e in
      pump-stopped later (pump k millisecs h st).1 now (pump-pumped millisecs h st ∙ pumped) owner
        done
