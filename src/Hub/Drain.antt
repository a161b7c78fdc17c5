-- ===== src/Hub/Drain.antt =====
-- DrainCons of src/FacadeHub.cpp: the connections of a hub are retired before the hub is closed.
pub mod Gone
use target_facade.Base.{
  ℕ, zero, suc, Bool, true, false, not, ◌&&◌, List, [], ◌∷◌, Option, none, some, is_some,
  if◌then◌else◌,
}
use target_facade.Base.Text.{WString}
use target_facade.Base.SortedMap.{Map, lookup, insert}
use target_facade.Hub.{Hub, ArmedCon, on_callbacks}
use target_facade.Hub.Kernel.{Kernel}
use target_facade.Hub.Pump.{wait_slice}

-- A std::set of addresses.
abbrev pub Names : Type 0
Names = Map (Unit {0})

-- the peers that are logged in
unfoldable pub add_up : Map Bool → Names → Names
add_up [] s = s
add_up ((j, up) ∷ n) s = add_up n (if up then insert j tt s else s)

-- the peers that were armed and never came up
unfoldable pub add_armed : Map Bool → Map ArmedCon → Names → Names
add_armed peers [] s = s
add_armed peers ((j, a) ∷ m) s =
    add_armed peers m (if is_some (lookup j peers) then s else insert j tt s)

-- the peers that Disconnect could not retire in time
unfoldable pub add_names : Names → Names → Names
add_names [] s = s
add_names ((j, u) ∷ r) s = add_names r (insert j tt s)

unfoldable pub drain_set : Hub → Names
drain_set h = add_names h.unretired (add_armed h.peers h.armed (add_up h.peers []))

abbrev pub drain_slices : ℕ
drain_slices = 120

module _ (k : Kernel) where
  -- A connection that refuses the signal does not keep the others from it.
  abbrev pub signal_each : Names → Hub → k.State → Hub × k.State
  signal_each [] h st = (h, st)
  signal_each ((peer, u) ∷ s) h st =
      let r = k.con_destroy peer st in signal_each s (on_callbacks r.1 h) r.2

  -- Whether one of the connections is still there, none where the kernel throws. The pump may run
  -- between two of these questions; here one state answers them all.
  unfoldable pub any_left : Names → k.State → Option Bool
  any_left [] st = some false
  any_left ((peer, u) ∷ s) st = elim (k.con_exists peer st) [
    | none ↦ none
    | some true ↦ some true
    | some false ↦ any_left s st
  ]

  unfoldable pub await_drained : ℕ → Names → Hub → k.State → Bool × Hub × k.State
  await_drained zero s h st = (false, h, st)
  await_drained (suc n) s h st = elim (any_left s st) [
    | none ↦ (false, h, st)
    | some false ↦ (true, h, st)
    | some true ↦ let w = wait_slice k h st in await_drained n s w.0 w.1
  ]

  abbrev pub drain_names : Names → Hub → k.State → Bool × Hub × k.State
  drain_names [] h st = (true, h, st)
  drain_names (n ∷ s) h st =
      let r = signal_each (n ∷ s) h st in await_drained drain_slices (n ∷ s) r.0 r.1

  unfoldable pub drain_cons : Hub → k.State → Bool × Hub × k.State
  drain_cons h st = drain_names (drain_set h) h st
