-- ===== src/Hub/Drain/Gone.antt =====
-- Which connections DrainCons signals, and what is left of them when it reports success.
use target_facade.Base.{
  ℕ, zero, suc, ◌≡◌, inl, inr, refl, sym, ◌∙◌, Bool, true, false, not, ◌&&◌, ◌||◌, [], ◌∷◌, none,
  some, arith, is_some, Bool-cases, Option-cases,
}
use mathlib.Core.Path.{ap}
use target_facade.Base.Text.{WString, equal_iff}
use target_facade.Base.SortedMap.{Map, lookup, insert, lookup-insert, IsSorted, lookup-After}
use target_facade.Hub.{Hub, ArmedCon, state_of}
use target_facade.Hub.Kernel.{Kernel}
use target_facade.Hub.Pump.{wait_slice}
use target_facade.Hub.Drain.{
  Names, add_up, add_armed, add_names, drain_set, any_left, await_drained, signal_each, drain_names,
  drain_cons, drain_slices,
}

lookup-add_up :
    (p : WString) (n : Map Bool) (s : Names)
    → IsSorted n
    → is_some (lookup p (add_up n s)) ≡ is_some (lookup p s) || state_of (lookup p n)
unfolding add_up lookup
lookup-add_up p [] s o = ground arith
lookup-add_up p ((j, true) ∷ n) s o = ground (
  arith,
  lookup-add_up p n (insert j tt s) o.1,
  lookup-insert j p tt s,
  equal_iff j p,
  lookup-After j n o.0,
)
lookup-add_up p ((j, false) ∷ n) s o =
    ground (arith, lookup-add_up p n s o.1, equal_iff j p, lookup-After j n o.0)

lookup-add_armed :
    (p : WString) (peers : Map Bool) (m : Map ArmedCon) (s : Names)
    → IsSorted m
    → is_some (lookup p (add_armed peers m s))
      ≡ is_some (lookup p s) || (is_some (lookup p m) && not (is_some (lookup p peers)))
unfolding add_armed lookup
lookup-add_armed p peers [] s o = ground arith
lookup-add_armed p peers ((j, a) ∷ m) s o = elim (Bool-cases (is_some (lookup j peers))) [
  | inl seen ↦ ground (arith, lookup-add_armed p peers m s o.1, equal_iff j p, lookup-After j m o.0)
  | inr unseen ↦ ground (
    arith,
    lookup-add_armed p peers m (insert j tt s) o.1,
    lookup-insert j p tt s,
    equal_iff j p,
    lookup-After j m o.0,
  )
]

lookup-add_names :
    (p : WString) (r s : Names)
    → is_some (lookup p (add_names r s)) ≡ is_some (lookup p s) || is_some (lookup p r)
unfolding add_names lookup
lookup-add_names p [] s = ground arith
lookup-add_names p ((j, u) ∷ r) s =
    ground (arith, lookup-add_names p r (insert j tt s), lookup-insert j p tt s, equal_iff j p)

-- A drain of a hub whose maps are in key order signals exactly the peers that are logged in, those that were armed and never came up,
-- and those that Disconnect could not retire in time; a peer that is down and redialling is left.
pub lookup-drain_set :
    (p : WString) (h : Hub)
    → IsSorted h.peers
    → IsSorted h.armed
    → is_some (lookup p (drain_set h)) ≡ (
        state_of (lookup p h.peers)
        || (is_some (lookup p h.armed) && not (is_some (lookup p h.peers)))
        || is_some (lookup p h.unretired))
unfolding drain_set lookup
lookup-drain_set p h s t = ground (
  arith,
  lookup-add_names p h.unretired (add_armed h.peers h.armed (add_up h.peers [])),
  lookup-add_armed p h.peers h.armed (add_up h.peers []) t,
  lookup-add_up p h.peers [] s,
)

module _ (k : Kernel) where
  any_left-gone :
      (p : WString) (s : Names) (st : k.State)
      → any_left k s st ≡ some false
      → is_some (lookup p s) ≡ true
      → k.con_exists p st ≡ some false
  unfolding any_left lookup
  any_left-gone p [] st none_left listed = cc
  any_left-gone p ((j, u) ∷ s) st none_left listed =
      ground (arith, equal_iff j p, any_left-gone p s st)

  await_drained-wait :
      (n : ℕ) (s : Names) (h : Hub) (st : k.State)
      → any_left k s st ≡ some true
      → await_drained k (suc n) s h st
        ≡ await_drained k n s (wait_slice k h st).0 (wait_slice k h st).1
  unfolding await_drained
  await_drained-wait n s h st e = rw (e, await_drained) refl

  await_drained-done :
      (n : ℕ) (s : Names) (h : Hub) (st : k.State)
      → any_left k s st ≡ some false
      → await_drained k (suc n) s h st ≡ (true, h, st)
  unfolding await_drained
  await_drained-done n s h st e = rw (e, await_drained) refl

  await_drained-thrown :
      (n : ℕ) (s : Names) (h : Hub) (st : k.State)
      → any_left k s st ≡ none
      → await_drained k (suc n) s h st ≡ (false, h, st)
  unfolding await_drained
  await_drained-thrown n s h st e = rw (e, await_drained) refl

  await_drained-gone :
      (n : ℕ) (s : Names) (h : Hub) (st : k.State)
      → (await_drained k n s h st).0 ≡ true
      → any_left k s (await_drained k n s h st).2 ≡ some false
  unfolding await_drained
  await_drained-gone zero s h st done = cc
  await_drained-gone (suc n) s h st done = elim (Option-cases (any_left k s st)) [
    | inl e ↦ absurd (ground (arith, await_drained-thrown n s h st e))
    | inr (true, e) ↦
        let step = await_drained-wait n s h st e in
        ap (λ r. any_left k s r.2) step
        ∙ await_drained-gone n s (wait_slice k h st).0 (wait_slice k h st).1
            (ap (λ r. r.0) (sym step) ∙ done)
    | inr (false, e) ↦ ap (λ r. any_left k s r.2) (await_drained-done n s h st e) ∙ e
  ]

  drain_names-gone :
      (s : Names) (p : WString) (h : Hub) (st : k.State)
      → (drain_names k s h st).0 ≡ true
      → is_some (lookup p s) ≡ true
      → k.con_exists p (drain_names k s h st).2 ≡ some false
  unfolding lookup
  drain_names-gone [] p h st done listed = cc
  drain_names-gone (n ∷ s) p h st done listed =
      let r = signal_each k (n ∷ s) h st in
      any_left-gone p (n ∷ s) (await_drained k drain_slices (n ∷ s) r.0 r.1).2
        (await_drained-gone drain_slices (n ∷ s) r.0 r.1 done) listed

  -- When a drain of a hub whose maps are in key order reports success, no connection is left to any peer that is logged in, or that was
  -- armed and never came up, or that Disconnect could not retire in time.
  pub drain_cons-gone :
      (p : WString) (h : Hub) (st : k.State)
      → IsSorted h.peers
      → IsSorted h.armed
      → (state_of (lookup p h.peers)
          || (is_some (lookup p h.armed) && not (is_some (lookup p h.peers)))
          || is_some (lookup p h.unretired))
        ≡ true
      → (drain_cons k h st).0 ≡ true
      → k.con_exists p (drain_cons k h st).2 ≡ some false
  unfolding drain_cons
  drain_cons-gone p h st s t wanted done =
      drain_names-gone (drain_set h) p h st done (lookup-drain_set p h s t ∙ wanted)
