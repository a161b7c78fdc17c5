-- ===== src/Tests/Registries.antt =====
-- The list of live hubs at inputs where the theorems apply.
use target_facade.Base.{ℕ, ◌≡◌, refl, List, [], ◌∷◌, some, ◌/◌, true, false}
use target_facade.Base.Text.{codes, equal}
use target_facade.Hub.{new_hub}
use target_facade.Registry.{
  LiveHub, HubRequest, Spawn, Estate, secure_flag, caller_pumped_flag, create_hub_ex, create_at,
  create_by, create_secure, start_and_publish, publish_hub, find_live,
}
use target_facade.Registry.Distinct.{
  IsDistinct, ListCall, publishes, removes, takes_head, list_calls, list_calls-IsDistinct,
}
use target_facade.Registry.Created.{Created, create_hub_ex-Created}
use target_facade.Security.Directory.{security_paths, ensure_security_dir, ensure_revocation_list}
use target_facade.Security.Provision.{
  provision_self, provision_keys, provision_rest, publish_agreement,
}
use target_facade.Base.SortedMap.{lookup}
use target_facade.Tests.Secure.{open_policy}

abbrev live : ℕ → LiveHub
live handle = record { handle = handle; hub = new_hub (codes "App") false false }

-- a hub, one of the same address that is refused, and the same again behind the first one's removal
abbrev in_turn : List ListCall
in_turn = publishes (live 1) ∷ publishes (live 2) ∷ removes 1 ∷ publishes (live 2) ∷ takes_head ∷ []

list_calls-IsDistinct_example : IsDistinct (list_calls in_turn (live 7 ∷ []))
unfolding find_live
list_calls-IsDistinct_example = list_calls-IsDistinct in_turn (live 7 ∷ []) (refl, tt)

abbrev request : HubRequest
request = record { address = some (codes "App.B"); has_events = true; has_out = true; flags = 3 }

abbrev spawn : Spawn open_policy
spawn = record { handle = 9; started = true; fresh_auth = false; meanwhile = λ ls. live 2 ∷ ls }

abbrev estate : Estate open_policy
estate = record { hubs = live 1 ∷ []; dirs = record { dir = codes "k\\"; used = false }; disk = [] }

create_hub_ex-Created_example :
    Created
      (codes "App.B")
      (secure_flag 3)
      (caller_pumped_flag 3)
      9
      (live 2 ∷ live 1 ∷ [])
      (create_hub_ex open_policy request spawn estate).2.hubs
    × ((3 / 4) ≡ 0)
unfolding create_hub_ex create_at create_by create_secure start_and_publish publish_hub find_live
    equal security_paths ensure_security_dir ensure_revocation_list provision_self provision_keys
    provision_rest publish_agreement lookup
create_hub_ex-Created_example =
    create_hub_ex-Created open_policy request (codes "App.B") spawn estate refl refl
