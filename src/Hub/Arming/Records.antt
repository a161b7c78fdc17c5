-- ===== src/Hub/Arming/Records.antt =====
-- What arming and retiring leave of a hub's records.

use target_facade.Base.{
  ◌≡◌, ◌≢◌, ◌↔◌, refl, ◌∙◌, Bool, true, false, Option, none, some, arith, if◌then◌else◌,
}
use mathlib.Core.Path.{ap}
use target_facade.Base.Text.{WString, equal}
use target_facade.Base.SortedMap.{lookup, insert, erase, lookup-insert, IsSorted}
use target_facade.Base.SortedMap.Extensional.{insert_back, erase-insert}
use target_facade.Status.{s_unrelated_link, e_security, failed}
use target_facade.Endpoint.{FacadeEndpoint, format}
use target_facade.Endpoint.Peer.{unrelated, classify_peer}
use target_facade.Hub.{Hub, ArmedCon, raise_event}
use target_facade.Hub.Records.{SameRecords, SameRecords-refl, on_callbacks-SameRecords}
use target_facade.Hub.Kernel.{Kernel}
use target_facade.Hub.Arming.{
  restore, record_arm, report_relation, post, make_con, arm_recorded, arm_resolved,
}

module _ (k : Kernel) where
  post-SameRecords :
      (con : Option k.Con) (h : Hub) (st : k.State) → SameRecords (post k con h st).1 h
  unfolding post
  post-SameRecords none h st = SameRecords-refl h
  post-SameRecords (some con) h st = on_callbacks-SameRecords (k.post_con (k.route_all con) st).1 h

  restored :
      (peer : WString) (old : Option ArmedCon) (new : ArmedCon) (g h : Hub)
      → IsSorted h.armed
      → lookup peer h.armed ≡ old
      → g.armed ≡ insert peer new h.armed
      → (restore peer old g).armed ≡ h.armed
  restored peer none new g h s found e = ap (erase peer) e ∙ erase-insert peer new h.armed s found
  restored peer (some old) new g h s found e =
      ap (insert peer old) e ∙ insert_back peer old new h.armed s found

  arm_recorded-failed :
      (peer : WString) (e : FacadeEndpoint) (listen : Bool) (h : Hub) (st : k.State)
      → IsSorted h.armed
      → failed (arm_recorded k peer e listen h st).0 ≡ true
      → (arm_recorded k peer e listen h st).1.armed ≡ h.armed
  unfolding arm_recorded
  arm_recorded-failed peer e listen h st s bad =
      let posted = post-SameRecords (make_con k e peer listen st) (record_arm peer e listen h) st in
      let back =
        restored peer (lookup peer h.armed) (record { endpoint = format e; listen = listen })
          (post k (make_con k e peer listen st) (record_arm peer e listen h) st).1 h s refl
          posted.armed in
      ground (arith, back)

  arm_recorded-armed :
      (peer : WString) (e : FacadeEndpoint) (listen : Bool) (h : Hub) (st : k.State)
      → failed (arm_recorded k peer e listen h st).0 ≡ false
      → (arm_recorded k peer e listen h st).1.armed ≡ (record_arm peer e listen h).armed
  unfolding arm_recorded
  arm_recorded-armed peer e listen h st good =
      let posted = post-SameRecords (make_con k e peer listen st) (record_arm peer e listen h) st in
      ground (arith, posted.armed)

  -- An arming call that fails, for whatever reason, on a hub whose records are in key order leaves
  -- its record of what it armed exactly as it was, the record of an earlier connection to the same
  -- peer included.
  pub arm_resolved-failed :
      (peer : Option WString) (e : FacadeEndpoint) (listen : Bool) (h : Hub) (st : k.State)
      → IsSorted h.armed
      → failed (arm_resolved k peer e listen h st).0 ≡ true
      → (arm_resolved k peer e listen h st).1.armed ≡ h.armed
  unfolding arm_resolved report_relation
  arm_resolved-failed none e listen h st s bad = refl
  arm_resolved-failed (some peer) e listen h st s bad =
      ground (arith, arm_recorded-failed peer e listen h st s)

  pub arm_resolved-records :
      (peer : WString) (e : FacadeEndpoint) (listen : Bool) (h : Hub) (st : k.State)
      → failed (arm_resolved k (some peer) e listen h st).0 ≡ false
      → (arm_resolved k (some peer) e listen h st).1.armed ≡ (record_arm peer e listen h).armed
  unfolding arm_resolved report_relation raise_event
  arm_resolved-records peer e listen h st good =
      ground (arith, arm_recorded-armed peer e listen h st)

  -- An arming call that succeeds records the endpoint's canonical spelling and the role under the
  -- peer and leaves the other records, and it returns the warning exactly when the classifier finds
  -- the peer's address unrelated to the hub's.
  pub arm_resolved-armed :
      (peer : WString) (e : FacadeEndpoint) (listen : Bool) (h : Hub) (st : k.State)
      → failed (arm_resolved k (some peer) e listen h st).0 ≡ false
      → ((other : WString)
          → lookup other (arm_resolved k (some peer) e listen h st).1.armed ≡ (
              if equal peer other
              then some (record { endpoint = format e; listen = listen })
              else lookup other h.armed))
        × ((arm_resolved k (some peer) e listen h st).0 ≡ s_unrelated_link
            ↔ classify_peer (some h.address) (some peer) ≡ unrelated)
  unfolding arm_resolved report_relation raise_event
  arm_resolved-armed peer e listen h st good = (
    λ other. ground (
      arith,
      arm_recorded-armed peer e listen h st,
      lookup-insert peer other (record { endpoint = format e; listen = listen }) h.armed,
    ),
    (λ code. ground arith, λ relation. ground arith),
  )

  post-trusted :
      (con : Option k.Con) (h : Hub) (st : k.State)
      → ((post k con h st).1.trusted ≡ h.trusted) × ((post k con h st).0 ≢ e_security)
  unfolding post
  post-trusted none h st = (refl, λ e. cc)
  post-trusted (some con) h st =
      ((on_callbacks-SameRecords (k.post_con (k.route_all con) st).1 h).trusted, λ e. ground arith)

  pub arm_resolved-trusted :
      (peer : WString) (e : FacadeEndpoint) (listen : Bool) (h : Hub) (st : k.State)
      → ((arm_resolved k (some peer) e listen h st).1.trusted ≡ h.trusted)
        × ((arm_resolved k (some peer) e listen h st).0 ≢ e_security)
  unfolding arm_resolved arm_recorded report_relation raise_event
  arm_resolved-trusted peer e listen h st =
      let posted = post-trusted (make_con k e peer listen st) (record_arm peer e listen h) st in
      (ground (arith, posted.0), λ e. ground (arith, posted.1))

  pub arm_resolved-unretired :
      (peer : Option WString) (e : FacadeEndpoint) (listen : Bool) (h : Hub) (st : k.State)
      → (arm_resolved k peer e listen h st).1.unretired ≡ h.unretired
  unfolding arm_resolved arm_recorded report_relation raise_event
  arm_resolved-unretired none e listen h st = refl
  arm_resolved-unretired (some peer) e listen h st =
      let posted = post-SameRecords (make_con k e peer listen st) (record_arm peer e listen h) st in
      ground (arith, posted.unretired)
