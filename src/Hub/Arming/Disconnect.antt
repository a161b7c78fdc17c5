-- ===== src/Hub/Arming/Disconnect.antt =====
-- What Disconnect leaves of a hub.
use target_facade.Base.{
  ◌≡◌, ◌≢◌, refl, sym, ◌∙◌, Bool, true, false, Option, none, some, arith, if◌then◌else◌,
}
use mathlib.Core.Path.{subst, ap}
use target_facade.Base.Text.{WString, is_empty, equal, equal_refl}
use target_facade.Base.SortedMap.{lookup, lookup-insert, lookup-erase}
use target_facade.Status.{s_ok, s_false, failed}
use target_facade.Hub.{Hub, mark_peer, is_peer_up}
use target_facade.Hub.Kernel.{Kernel}
use target_facade.Hub.Arming.{close_con, disconnect, retire, retire_slices, mark_lost, note_retired}
use target_facade.Hub.Arming.Retire.{close_con-SameRecords}
use target_facade.Hub.Records.{
  SameRecords, SameRecords-refl, SameRecords-trans, mark_peer-SameRecords,
}

module _ (k : Kernel) where
  mark_lost-SameRecords :
      (peer : WString) (up : Bool) (h : Hub) → SameRecords (mark_lost peer up h) h
  mark_lost-SameRecords peer true h = mark_peer-SameRecords peer false h
  mark_lost-SameRecords peer false h = SameRecords-refl h

  mark_lost-down :
      (peer : WString) (h : Hub)
      → is_empty peer ≡ false
      → is_peer_up (some peer) (mark_lost peer true h) ≡ false
  unfolding is_peer_up mark_peer
  mark_lost-down peer h named =
      ground (arith, lookup-insert peer peer false h.peers, equal_refl peer)

  -- A Disconnect that fails changes nothing.
  pub disconnect-failed :
      (peer : Option WString) (h : Hub) (st : k.State)
      → failed (disconnect k peer h st).0 ≡ true
      → disconnect k peer h st ≡ ((disconnect k peer h st).0, h, st)
  unfolding disconnect
  disconnect-failed none h st bad = refl
  disconnect-failed (some peer) h st bad = ground arith

  disconnect-retire :
      (peer : WString) (h : Hub) (st : k.State)
      → failed (disconnect k (some peer) h st).0 ≡ false
      → (is_empty peer ≡ false) × (disconnect k (some peer) h st ≡ retire k peer h st)
  unfolding disconnect
  disconnect-retire peer h st good = ground arith

  note_retired-armed :
      (peer : WString) (gone : Bool) (h : Hub) → (note_retired peer gone h).armed ≡ h.armed
  note_retired-armed peer true h = refl
  note_retired-armed peer false h = refl

  note_retired-up :
      (peer : WString) (gone : Bool) (h : Hub)
      → is_peer_up (some peer) (note_retired peer gone h) ≡ is_peer_up (some peer) h
  unfolding is_peer_up
  note_retired-up peer true h = refl
  note_retired-up peer false h = refl

  note_retired-unretired :
      (peer other : WString) (gone : Bool) (h : Hub)
      → lookup other (note_retired peer gone h).unretired
        ≡ (if equal peer other then (if gone then none else some tt) else lookup other h.unretired)
  note_retired-unretired peer other true h = lookup-erase peer other h.unretired
  note_retired-unretired peer other false h = lookup-insert peer other tt h.unretired

  -- A Disconnect that does not fail has removed the peer's record and no other one, holds the peer
  -- for the drain exactly when it returns S_FALSE because the connection did not leave in time, and
  -- leaves a peer that was up down.
  pub disconnect-outcome :
      (peer other : WString) (h : Hub) (st : k.State)
      → let r = disconnect k (some peer) h st in
        failed r.0 ≡ false
        → (lookup other r.1.armed ≡ (if equal peer other then none else lookup other h.armed))
          × (r.0 ≡ s_ok
              → lookup other r.1.unretired
                ≡ (if equal peer other then none else lookup other h.unretired))
          × (r.0 ≢ s_ok
              → (r.0 ≡ s_false)
                × (lookup other r.1.unretired
                    ≡ (if equal peer other then some tt else lookup other h.unretired)))
          × (is_peer_up (some peer) h ≡ true → is_peer_up (some peer) r.1 ≡ false)
  disconnect-outcome peer other h st good =
      let (named, ran) = disconnect-retire peer h st good in
      let c = close_con k peer retire_slices h st in
      let up = is_peer_up (some peer) h in
      let closed = close_con-SameRecords k peer retire_slices h st named in
      let marked = SameRecords-trans (mark_lost-SameRecords peer up c.1) closed in
      let records = note_retired-armed peer c.0 (mark_lost peer up c.1) ∙ marked.armed in
      let drain = note_retired-unretired peer other c.0 (mark_lost peer up c.1) in
      subst
        (λ r.
          (lookup other r.1.armed ≡ (if equal peer other then none else lookup other h.armed))
          × (r.0 ≡ s_ok
              → lookup other r.1.unretired
                ≡ (if equal peer other then none else lookup other h.unretired))
          × (r.0 ≢ s_ok
              → (r.0 ≡ s_false)
                × (lookup other r.1.unretired
                    ≡ (if equal peer other then some tt else lookup other h.unretired)))
          × (is_peer_up (some peer) h ≡ true → is_peer_up (some peer) r.1 ≡ false))
        (sym ran)
        (
          ap (lookup other) records ∙ lookup-erase peer other h.armed,
          λ e. ground (arith, drain, marked.unretired),
          λ e. ground (arith, drain, marked.unretired),
          λ was.
              note_retired-up peer c.0 (mark_lost peer up c.1)
              ∙ ap (λ b. is_peer_up (some peer) (mark_lost peer b c.1)) was
              ∙ mark_lost-down peer c.1 named,
        )
