-- ===== src/Topology/Live.antt =====
-- The hubs that a topology creates and closes: createHubs, hub and closeAll of
-- include/TargetFacadeTopology.hpp, over the wrapper of a network.
use target_facade.Base.{
  ◌≡◌, refl, sym, ◌∙◌, inl, inr, true, false, List, [], ◌∷◌, Option, none, some, is_some, arith,
  Option-cases, ap,
}
use mathlib.Core.Path.{subst}
use target_facade.Base.Lists.{All}
use target_facade.Base.Text.{WString, equal_iff, equal_refl}
use target_facade.Base.SortedMap.{Map, lookup, insert, lookup-insert}
use target_facade.Status.{HResult, s_ok, e_hub_duplicate, failed}
use target_facade.Topology.{NetCalls}

module _ (c : NetCalls) where
  -- m_live
  abbrev pub LiveHubs : Type 0
  LiveHubs = Map c.Held

  abbrev pub close_found : Option c.Held → c.Net → c.Net
  close_found none net = net
  close_found (some hub) net = c.close hub net

  -- the loop of closeAll, from the last hub to the first
  unfoldable pub close_each : List WString → LiveHubs → c.Net → c.Net
  close_each [] live net = net
  close_each (h ∷ hs) live net = close_found (lookup h live) (close_each hs live net)

  unfoldable pub close_all : List WString → LiveHubs → c.Net → LiveHubs × c.Net
  close_all hubs live net = ([], close_each hubs live net)

  -- `m_live.emplace`, which destroys a hub that it cannot keep
  abbrev pub emplace : WString → c.Held → Option c.Held → LiveHubs → c.Net → LiveHubs × c.Net
  emplace address hub none live net = (insert address hub live, net)
  emplace address hub (some old) live net = (live, c.close hub net)

  -- The loop of createHubs; `all` is m_hubs.
  unfoldable pub create_each :
      List WString → List WString → LiveHubs → c.Net → HResult × LiveHubs × c.Net
  create_each all [] live net = (s_ok, live, net)
  create_each all (h ∷ hs) live net = elim (c.create_hub h net).0 [
    | none ↦ let r = close_all all live (c.create_hub h net).1 in (e_hub_duplicate, r.0, r.1)
    | some hub ↦
        let r = emplace h hub (lookup h live) live (c.create_hub h net).1 in
        create_each all hs r.0 r.1
  ]

  unfoldable pub create_hubs : List WString → LiveHubs → c.Net → HResult × LiveHubs × c.Net
  create_hubs hubs live net = create_each hubs hubs live net

  unfoldable pub hub_at : Option WString → LiveHubs → Option c.Held
  hub_at none live = lookup [] live
  hub_at (some address) live = lookup address live

  -- a success has a hub for each address, and those that it had before; a failure has none
  abbrev pub Answered : List WString → LiveHubs → HResult × LiveHubs × c.Net → Type 0
  Answered hs before r =
      (failed r.0 ≡ false
        → All (λ h. is_some (lookup h r.1) ≡ true) hs
          × ((k : WString) → is_some (lookup k before) ≡ true → lookup k r.1 ≡ lookup k before))
      × (failed r.0 ≡ true → (r.0 ≡ e_hub_duplicate) × (r.1 ≡ []))

  emplace-lookup :
      (address : WString) (hub : c.Held) (o : Option c.Held) (live : LiveHubs) (net : c.Net)
      → lookup address live ≡ o
      → (is_some (lookup address (emplace address hub o live net).0) ≡ true)
        × ((k : WString)
            → is_some (lookup k live) ≡ true
            → lookup k (emplace address hub o live net).0 ≡ lookup k live)
  emplace-lookup address hub none live net e = (
    ground (arith, lookup-insert address address hub live, equal_refl address),
    λ k there. ground (arith, lookup-insert address k hub live, equal_iff address k, e),
  )
  emplace-lookup address hub (some old) live net e = (ground (arith, e), λ k there. refl)

  create_each-made :
      (all : List WString) (h : WString) (hs : List WString) (live : LiveHubs) (net : c.Net)
      (hub : c.Held)
      → (c.create_hub h net).0 ≡ some hub
      → let r = emplace h hub (lookup h live) live (c.create_hub h net).1 in
        create_each all (h ∷ hs) live net ≡ create_each all hs r.0 r.1
  unfolding create_each
  create_each-made all h hs live net hub made = rw (made, create_each) refl

  create_each-Answered :
      (all hs : List WString) (live : LiveHubs) (net : c.Net)
      → Answered hs live (create_each all hs live net)
  unfolding create_each close_all
  create_each-Answered all [] live net = (λ e. (tt, λ k there. refl), λ e. cc)
  create_each-Answered all (h ∷ hs) live net =
      let after = (c.create_hub h net).1 in
      elim (Option-cases (c.create_hub h net).0) [
        | inl threw ↦ rw (threw, create_each) (λ e. cc, λ e. (refl, refl))
        | inr (hub, made) ↦
            let r = emplace h hub (lookup h live) live after in
            let now = emplace-lookup h hub (lookup h live) live after refl in
            let rest = create_each-Answered all hs r.0 r.1 in
            subst (Answered (h ∷ hs) live) (sym (create_each-made all h hs live net hub made)) (
              λ e.
                  let good = rest.0 e in
                  (
                    (ap is_some (good.1 h now.0) ∙ now.0, good.0),
                    λ k there. good.1 k (ap is_some (now.1 k there) ∙ there) ∙ now.1 k there,
                  ),
              rest.1,
            )
      ]

  -- createHubs that succeeds has a live hub for each declared address and has kept those that were
  -- there; where it fails it returns P2PF_E_HUB_DUPLICATE and no hub is left in the topology.
  pub create_hubs-Answered :
      (hubs : List WString) (live : LiveHubs) (net : c.Net)
      → Answered hubs live (create_hubs hubs live net)
  unfolding create_hubs
  create_hubs-Answered hubs live net = create_each-Answered hubs hubs live net
