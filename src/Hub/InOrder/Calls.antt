-- ===== src/Hub/InOrder/Calls.antt =====
-- Arming, Disconnect and a slice of a wait on the maps of a hub.
use target_facade.Base.{
  ℕ, zero, suc, inl, inr, Bool, true, false, not, ◌&&◌, ◌||◌, Option, none, some, if◌then◌else◌,
  Bool-cases, Option-cases,
}
use target_facade.Base.Text.{WString, is_empty}
use target_facade.Base.SortedMap.{lookup, erase-IsSorted}
use target_facade.Status.{failed}
use target_facade.Endpoint.{FacadeEndpoint}
use target_facade.Endpoint.Peer.{
  Relation, self, descendant, ancestor, unrelated, pattern_peer, classify_peer,
  is_swapped_peer_argument,
}
use target_facade.Hub.{Hub, on_callbacks, is_peer_up}
use target_facade.Hub.Kernel.{
  Kernel, Turn, turn_threw, turned, hub_close, hub_close_on_idle, other_signal,
}
use target_facade.Hub.Pump.{read_turn, pump_once, wait_slice, drain_slice_millisecs}
use target_facade.Hub.Arming.{
  record_arm, report_relation, post, make_con, arm_recorded, arm_related, arm_resolved, await_gone,
  close_con, disconnect, retire, drop_record, retire_slices, mark_lost,
}
use target_facade.Hub.InOrder.{
  InOrder, on_callbacks-InOrder, latch-InOrder, record_arm-InOrder, restore-InOrder,
  note_retired-InOrder, mark_lost-InOrder, report_relation-InOrder,
}

module _ (k : Kernel) where
  read_turn-InOrder :
      (t : Turn) (h : Hub) (st : k.State) → InOrder h → InOrder (read_turn k t h st).1
  unfolding read_turn
  read_turn-InOrder turn_threw h st i = latch-InOrder h i
  read_turn-InOrder (turned zero signal) h st i = latch-InOrder h i
  read_turn-InOrder (turned (suc n) hub_close) h st i =
      let cs = (k.signal_all true st).0 in
      latch-InOrder (on_callbacks cs h) (on_callbacks-InOrder cs h i)
  read_turn-InOrder (turned (suc n) hub_close_on_idle) h st i =
      let cs = (k.signal_all false st).0 in
      latch-InOrder (on_callbacks cs h) (on_callbacks-InOrder cs h i)
  read_turn-InOrder (turned (suc n) other_signal) h st i = i

  pub wait_slice-InOrder : (h : Hub) (st : k.State) → InOrder h → InOrder (wait_slice k h st).0
  unfolding wait_slice pump_once
  wait_slice-InOrder h st i =
      let t = k.pump_msg drain_slice_millisecs st in
      elim (Bool-cases (not h.caller_pumped || not (k.owns_pump st) || h.pump_done)) [
        | inl sleeps ↦ rw sleeps (on_callbacks-InOrder (k.sleep drain_slice_millisecs st).0 h i)
        | inr works ↦
            rw works (read_turn-InOrder t.0 (on_callbacks t.1 h) t.2 (on_callbacks-InOrder t.1 h i))
      ]

  await_gone-InOrder :
      (n : ℕ) (p : WString) (h : Hub) (st : k.State) → InOrder h → InOrder (await_gone k n p h st).1
  unfolding await_gone
  await_gone-InOrder zero p h st i = i
  await_gone-InOrder (suc n) p h st i = elim (Option-cases (k.con_exists p st)) [
    | inl e ↦ rw (e, await_gone) i
    | inr (false, e) ↦ rw (e, await_gone) i
    | inr (true, e) ↦
        rw (e, await_gone)
          (await_gone-InOrder n p (wait_slice k h st).0 (wait_slice k h st).1
            (wait_slice-InOrder h st i))
  ]

  close_con-InOrder :
      (p : WString) (slices : ℕ) (h : Hub) (st : k.State)
      → InOrder h
      → InOrder (close_con k p slices h st).1
  unfolding close_con
  close_con-InOrder p slices h st i =
      let r = k.con_destroy p st in
      let dropped : InOrder (drop_record p h) = record {
        armed = erase-IsSorted p h.armed i.armed;
        peers = i.peers;
        unretired = i.unretired;
      } in
      let signalled = on_callbacks-InOrder r.1 (drop_record p h) dropped in
      elim (Bool-cases (is_empty p)) [
        | inl e ↦ rw e i
        | inr e ↦ elim (Bool-cases r.0) [
          | inl ok ↦
              rw (e, ok)
                (await_gone-InOrder slices p (on_callbacks r.1 (drop_record p h)) r.2 signalled)
          | inr thrown ↦ rw (e, thrown) signalled
        ]
      ]

  retire-InOrder : (p : WString) (h : Hub) (st : k.State) → InOrder h → InOrder (retire k p h st).1
  retire-InOrder p h st i =
      let c = close_con k p retire_slices h st in
      let up = is_peer_up (some p) h in
      note_retired-InOrder p c.0 (mark_lost p up c.1)
        (mark_lost-InOrder p up c.1 (close_con-InOrder p retire_slices h st i))

  pub disconnect-InOrder :
      (p : Option WString) (h : Hub) (st : k.State) → InOrder h → InOrder (disconnect k p h st).1
  unfolding disconnect
  disconnect-InOrder none h st i = i
  disconnect-InOrder (some p) h st i = elim (Bool-cases (is_empty p)) [
    | inl e ↦ rw e i
    | inr e ↦ elim (Bool-cases (not h.caller_pumped && k.owns_pump st)) [
      | inl o ↦ rw (e, o) i
      | inr o ↦ elim (Option-cases (k.con_exists p st)) [
        | inl c ↦ rw (e, o, c) i
        | inr (false, c) ↦ rw (e, o, c) i
        | inr (true, c) ↦ rw (e, o, c) (retire-InOrder p h st i)
      ]
    ]
  ]

  post-InOrder :
      (con : Option k.Con) (h : Hub) (st : k.State) → InOrder h → InOrder (post k con h st).1
  unfolding post
  post-InOrder none h st i = i
  post-InOrder (some con) h st i = on_callbacks-InOrder (k.post_con (k.route_all con) st).1 h i

  arm_recorded-InOrder :
      (p : WString) (e : FacadeEndpoint) (listen : Bool) (h : Hub) (st : k.State)
      → InOrder h
      → InOrder (arm_recorded k p e listen h st).1
  unfolding arm_recorded
  arm_recorded-InOrder p e listen h st i =
      let r = post k (make_con k e p listen st) (record_arm p e listen h) st in
      let posted =
        post-InOrder (make_con k e p listen st) (record_arm p e listen h) st
          (record_arm-InOrder p e listen h i) in
      elim (Bool-cases (failed r.0)) [
        | inl bad ↦ rw bad (restore-InOrder p (lookup p h.armed) r.1 posted)
        | inr good ↦ rw good posted
      ]

  reported-InOrder :
      (relation : Relation) (p : WString) (e : FacadeEndpoint) (listen : Bool) (h : Hub)
      (st : k.State)
      → InOrder h
      → let r = arm_recorded k p e listen h st in
        let said = report_relation relation p r.1 in
        InOrder (if failed r.0 then r else (said.0, said.1, r.2)).1
  reported-InOrder relation p e listen h st i =
      let r = arm_recorded k p e listen h st in
      let recorded = arm_recorded-InOrder p e listen h st i in
      elim (Bool-cases (failed r.0)) [
        | inl bad ↦ rw bad recorded
        | inr good ↦ rw good (report_relation-InOrder relation p r.1 recorded)
      ]

  arm_related-InOrder :
      (relation : Relation) (p : WString) (e : FacadeEndpoint) (listen : Bool) (h : Hub)
      (st : k.State)
      → InOrder h
      → InOrder (arm_related k relation p e listen h st).1
  arm_related-InOrder self p e listen h st i = i
  arm_related-InOrder descendant p e listen h st i = reported-InOrder descendant p e listen h st i
  arm_related-InOrder ancestor p e listen h st i = reported-InOrder ancestor p e listen h st i
  arm_related-InOrder unrelated p e listen h st i = reported-InOrder unrelated p e listen h st i
  arm_related-InOrder pattern_peer p e listen h st i =
      reported-InOrder pattern_peer p e listen h st i

  pub arm_resolved-InOrder :
      (p : Option WString) (e : FacadeEndpoint) (listen : Bool) (h : Hub) (st : k.State)
      → InOrder h
      → InOrder (arm_resolved k p e listen h st).1
  unfolding arm_resolved
  arm_resolved-InOrder none e listen h st i = i
  arm_resolved-InOrder (some p) e listen h st i =
      elim (Bool-cases (is_empty p || is_swapped_peer_argument (some p))) [
        | inl g ↦ rw g i
        | inr g ↦
            rw g (arm_related-InOrder (classify_peer (some h.address) (some p)) p e listen h st i)
      ]
