-- ===== src/Hub/History.antt =====
-- What the records of a hub say of the calls that were made on it: Listen, Connect and Disconnect
-- behind their endpoints, and the waits between them, of src/FacadeHub.cpp.
use target_facade.Base.{
  ◌≡◌, ◌≢◌, refl, sym, ◌∙◌, ap, inl, inr, Bool, true, false, not, ◌&&◌, List, [], ◌∷◌, Option, none,
  some, arith, if◌then◌else◌, Bool-cases,
}
use target_facade.Base.Text.{WString, equal}
use target_facade.Base.SortedMap.{lookup}
use target_facade.Status.{HResult, s_ok, s_false, e_pointer, failed}
use target_facade.Endpoint.{FacadeEndpoint, format}
use target_facade.Hub.{Hub, ArmedCon, new_hub}
use target_facade.Hub.Kernel.{Kernel}
use target_facade.Hub.Pump.{wait_slice}
use target_facade.Hub.Pump.Latch.{wait_slice-SameRecords}
use target_facade.Hub.Arming.{arm_resolved, disconnect}
use target_facade.Hub.Arming.Records.{
  arm_resolved-failed, arm_resolved-armed, arm_resolved-unretired,
}
use target_facade.Hub.Arming.Disconnect.{disconnect-failed, disconnect-outcome}
use target_facade.Hub.InOrder.{InOrder}
use target_facade.Hub.InOrder.Calls.{arm_resolved-InOrder, disconnect-InOrder, wait_slice-InOrder}

-- A call on a hub, or a slice of a wait between two of them.
pub data HubCall : Type 0 where
  arm_call : Option WString → FacadeEndpoint → Bool → HubCall
  disconnect_call : Option WString → HubCall
  wait_call : HubCall

module _ (k : Kernel) where
  unfoldable pub hub_call : HubCall → Hub → k.State → HResult × Hub × k.State
  hub_call (arm_call peer e listen) h st = arm_resolved k peer e listen h st
  hub_call (disconnect_call peer) h st = disconnect k peer h st
  hub_call wait_call h st = let r = wait_slice k h st in (s_ok, r.0, r.1)

  -- with what each call returned
  unfoldable pub hub_calls : List HubCall → Hub → k.State → List HResult × Hub × k.State
  hub_calls [] h st = ([], h, st)
  hub_calls (c ∷ cs) h st =
      let r = hub_call c h st in let rest = hub_calls cs r.1 r.2 in (r.0 ∷ rest.0, rest.1, rest.2)

-- What a client that knows its calls and their results knows of one peer.
pub record Known : Type 0 where
  pub armed : Option ArmedCon
  pub unretired : Option (Unit {0})

abbrev pub is_s_false : HResult → Bool
is_s_false s_false = true
is_s_false _ = false

-- One call, as its client reads the result. A peer that is armed again stays held for the drain.
unfoldable pub learn : WString → HubCall → HResult → Known → Known
learn p (arm_call (some peer) e listen) r n =
    if not (failed r) && equal peer p
    then record n { armed = some (record { endpoint = format e; listen = listen }) }
    else n
learn p (disconnect_call (some peer)) r n =
    if not (failed r) && equal peer p
    then record { armed = none; unretired = if is_s_false r then some tt else none }
    else n
learn p _ r n = n

unfoldable pub learn_all : WString → List HubCall → List HResult → Known → Known
learn_all p (c ∷ cs) (r ∷ rs) n = learn_all p cs rs (learn p c r n)
learn_all p _ _ n = n

abbrev pub known_of : WString → Hub → Known
known_of p h = record { armed = lookup p h.armed; unretired = lookup p h.unretired }

-- the two parts of what is known, each by an equation
both_known :
    (a b : Option ArmedCon) (u v : Option (Unit {0}))
    → a ≡ b
    → u ≡ v
    → ◌≡◌ {A = Known} (record { armed = a; unretired = u }) (record { armed = b; unretired = v })
both_known a b u v e f = cc

learn-failed :
    (p : WString) (c : HubCall) (r : HResult) (n : Known) → failed r ≡ true → learn p c r n ≡ n
unfolding learn
learn-failed p (arm_call none e listen) r n bad = refl
learn-failed p (arm_call (some peer) e listen) r n bad = ground arith
learn-failed p (disconnect_call none) r n bad = refl
learn-failed p (disconnect_call (some peer)) r n bad = ground arith
learn-failed p wait_call r n bad = refl

learn-armed :
    (p peer : WString) (e : FacadeEndpoint) (listen : Bool) (r : HResult) (n : Known)
    → failed r ≡ false
    → learn p (arm_call (some peer) e listen) r n ≡ record {
      armed =
          if equal peer p then some (record { endpoint = format e; listen = listen }) else n.armed;
      unretired = n.unretired;
    }
unfolding learn
learn-armed p peer e listen r n good = ground arith

learn-disconnected :
    (p peer : WString) (r : HResult) (n : Known)
    → failed r ≡ false
    → learn p (disconnect_call (some peer)) r n ≡ record {
      armed = if equal peer p then none else n.armed;
      unretired = if equal peer p then (if is_s_false r then some tt else none) else n.unretired;
    }
unfolding learn
learn-disconnected p peer r n good = ground arith

module _ (k : Kernel) where
  arm_call-learn :
      (p : WString) (peer : Option WString) (e : FacadeEndpoint) (listen : Bool) (h : Hub)
      (st : k.State)
      → InOrder h
      → let r = arm_resolved k peer e listen h st in
        known_of p r.1 ≡ learn p (arm_call peer e listen) r.0 (known_of p h)
  unfolding arm_resolved
  arm_call-learn p none e listen h st i =
      sym (learn-failed p (arm_call none e listen) e_pointer (known_of p h) refl)
  arm_call-learn p (some peer) e listen h st i =
      let r = arm_resolved k (some peer) e listen h st in
      let n = known_of p h in
      let held = ap (lookup p) (arm_resolved-unretired k (some peer) e listen h st) in
      elim (Bool-cases (failed r.0)) [
        | inl bad ↦
            both_known _ _ _ _
              (ap (lookup p) (arm_resolved-failed k (some peer) e listen h st i.armed bad)) held
            ∙ sym (learn-failed p (arm_call (some peer) e listen) r.0 n bad)
        | inr good ↦
            both_known _ _ _ _ ((arm_resolved-armed k peer e listen h st good).0 p) held
            ∙ sym (learn-armed p peer e listen r.0 n good)
      ]

  held_by-result :
      (peer p : WString) (r : HResult) (before after : Option (Unit {0}))
      → (r ≡ s_ok → after ≡ (if equal peer p then none else before))
      → (r ≢ s_ok → (r ≡ s_false) × (after ≡ (if equal peer p then some tt else before)))
      → after ≡ (if equal peer p then (if is_s_false r then some tt else none) else before)
  held_by-result peer p s_ok before after went stayed = went refl
  held_by-result peer p s_false before after went stayed = (stayed (λ e. cc)).1
  held_by-result peer p _ before after went stayed = let other = (stayed (λ e. cc)).0 in cc

  retired-learn :
      (p : WString) (peer : Option WString) (h : Hub) (st : k.State)
      → failed (disconnect k peer h st).0 ≡ false
      → known_of p (disconnect k peer h st).1
        ≡ learn p (disconnect_call peer) (disconnect k peer h st).0 (known_of p h)
  unfolding disconnect
  retired-learn p none h st good = cc
  retired-learn p (some peer) h st good =
      let outcome = disconnect-outcome k peer p h st good in
      both_known _ _ _ _ outcome.0
        (held_by-result peer p (disconnect k (some peer) h st).0 _ _ outcome.1 outcome.2)
      ∙ sym (learn-disconnected p peer (disconnect k (some peer) h st).0 (known_of p h) good)

  disconnect_call-learn :
      (p : WString) (peer : Option WString) (h : Hub) (st : k.State)
      → let r = disconnect k peer h st in
        known_of p r.1 ≡ learn p (disconnect_call peer) r.0 (known_of p h)
  disconnect_call-learn p peer h st =
      let r = disconnect k peer h st in
      elim (Bool-cases (failed r.0)) [
        | inl bad ↦
            ap (λ q. known_of p q.1) (disconnect-failed k peer h st bad)
            ∙ sym (learn-failed p (disconnect_call peer) r.0 (known_of p h) bad)
        | inr good ↦ retired-learn p peer h st good
      ]

  hub_call-learn :
      (p : WString) (c : HubCall) (h : Hub) (st : k.State)
      → InOrder h
      → known_of p (hub_call k c h st).1 ≡ learn p c (hub_call k c h st).0 (known_of p h)
  unfolding hub_call learn
  hub_call-learn p (arm_call peer e listen) h st i = arm_call-learn p peer e listen h st i
  hub_call-learn p (disconnect_call peer) h st i = disconnect_call-learn p peer h st
  hub_call-learn p wait_call h st i =
      let same = wait_slice-SameRecords k h st in
      both_known _ _ _ _ (ap (lookup p) same.armed) (ap (lookup p) same.unretired)

  hub_call-InOrder :
      (c : HubCall) (h : Hub) (st : k.State) → InOrder h → InOrder (hub_call k c h st).1
  unfolding hub_call
  hub_call-InOrder (arm_call p e listen) h st i = arm_resolved-InOrder k p e listen h st i
  hub_call-InOrder (disconnect_call p) h st i = disconnect-InOrder k p h st i
  hub_call-InOrder wait_call h st i = wait_slice-InOrder k h st i

  hub_calls-learn :
      (p : WString) (cs : List HubCall) (h : Hub) (st : k.State)
      → InOrder h
      → known_of p (hub_calls k cs h st).1 ≡ learn_all p cs (hub_calls k cs h st).0 (known_of p h)
  unfolding hub_calls learn_all
  hub_calls-learn p [] h st i = refl
  hub_calls-learn p (c ∷ cs) h st i =
      let r = hub_call k c h st in
      hub_calls-learn p cs r.1 r.2 (hub_call-InOrder c h st i)
      ∙ ap (learn_all p cs (hub_calls k cs r.1 r.2).0) (hub_call-learn p c h st i)

  -- What a new hub has recorded of a peer, behind any sequence of arming calls, Disconnects and slices
  -- of a wait, whatever the kernel answers and calls back, is what the calls and their results say:
  -- the endpoint's spelling and the role of the last arming call for the peer that did not fail, with
  -- no Disconnect behind it that did not fail; and the peer is held for the drain exactly when the
  -- last such Disconnect returned S_FALSE.
  pub hub_calls-learn_all :
      (cs : List HubCall) (address : WString) (secure pumped : Bool) (st : k.State) (p : WString)
      → let r = hub_calls k cs (new_hub address secure pumped) st in
        known_of p r.1 ≡ learn_all p cs r.0 (record { armed = none; unretired = none })
  unfolding lookup
  hub_calls-learn_all cs address secure pumped st p =
      hub_calls-learn p cs (new_hub address secure pumped) st
        (record { armed = tt; peers = tt; unretired = tt })
