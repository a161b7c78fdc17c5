-- ===== src/Hub/Records.antt =====
-- What the callbacks of the pump leave alone in a hub.
use target_facade.Base.{◌≡◌, refl, ◌∙◌, Bool, List, [], ◌∷◌, some, arith}
use target_facade.Base.Text.{WString}
use target_facade.Hub.{
  Hub, Callback, con_close, mark_peer, on_callback, on_callbacks, raise_event, EventCode,
}

-- Two states of one hub with the same records of what it armed, of what it could not retire and of
-- whom it trusts.
pub record SameRecords (g h : Hub) : Type 0 where
  pub armed : g.armed ≡ h.armed
  pub unretired : g.unretired ≡ h.unretired
  pub address : g.address ≡ h.address
  pub pumped : g.caller_pumped ≡ h.caller_pumped
  pub trusted : g.trusted ≡ h.trusted

pub SameRecords-refl : (h : Hub) → SameRecords h h
SameRecords-refl h = record {
  armed = refl;
  unretired = refl;
  address = refl;
  pumped = refl;
  trusted = refl;
}

pub SameRecords-trans : {f g h : Hub} → SameRecords f g → SameRecords g h → SameRecords f h
SameRecords-trans a b = record {
  armed = a.armed ∙ b.armed;
  unretired = a.unretired ∙ b.unretired;
  address = a.address ∙ b.address;
  pumped = a.pumped ∙ b.pumped;
  trusted = a.trusted ∙ b.trusted;
}

pub mark_peer-SameRecords : (p : WString) (up : Bool) (h : Hub) → SameRecords (mark_peer p up h) h
unfolding mark_peer
mark_peer-SameRecords p up h = record {
  armed = ground arith;
  unretired = ground arith;
  address = ground arith;
  pumped = ground arith;
  trusted = ground arith;
}

raise_event-SameRecords :
    (code : EventCode) (p what : WString) (h : Hub) → SameRecords (raise_event code p what h) h
unfolding raise_event
raise_event-SameRecords code p what h = record {
  armed = ground arith;
  unretired = ground arith;
  address = ground arith;
  pumped = ground arith;
  trusted = ground arith;
}

on_callback-SameRecords : (c : Callback) (h : Hub) → SameRecords (on_callback c h) h
unfolding on_callback raise_event mark_peer
on_callback-SameRecords (con_close p (some service)) h = record {
  armed = ground arith;
  unretired = ground arith;
  address = ground arith;
  pumped = ground arith;
  trusted = ground arith;
}
on_callback-SameRecords c h = record {
  armed = ground arith;
  unretired = ground arith;
  address = ground arith;
  pumped = ground arith;
  trusted = ground arith;
}

pub on_callbacks-SameRecords : (cs : List Callback) (h : Hub) → SameRecords (on_callbacks cs h) h
on_callbacks-SameRecords [] h = SameRecords-refl h
on_callbacks-SameRecords (c ∷ cs) h =
    let step = on_callback-SameRecords c h in
    let rest = on_callbacks-SameRecords cs (on_callback c h) in SameRecords-trans rest step
