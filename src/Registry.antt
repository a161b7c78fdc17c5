-- ===== src/Registry.antt =====
-- The hubs of a network and the one network of a process: CreateHubEx, RemoveHub, CloseAllHubs,
-- P2PF_CreateNetwork, Acquire and Release of src/FacadeNetwork.cpp.
--
-- A hub is an object: its handle stands for its pointer. What a hub does when it is closed is not
-- modelled here.
pub mod Distinct
pub mod Created
use target_facade.Base.{
  ℕ, zero, suc, ◌+◌, ◌-◌, ◌/◌, ◌%◌, Bool, true, false, not, ◌&&◌, ◌||◌, List, [], ◌∷◌, ◌++◌, Option,
  none, some, ltb, ◌==◌, if◌then◌else◌,
}
use target_facade.Base.Text.{WString, equal, is_empty}
use target_facade.Status.{
  HResult, s_ok, e_pointer, e_invalid_arg, e_hub_duplicate, e_hub_spawn, e_security, e_startup,
  e_abi_mismatch, failed,
}
use target_facade.Hub.{Hub, new_hub}
use target_facade.Security.Facilities.{Policy, is_id_ok, apply_default_posture}
use target_facade.Security.Directory.{KeyDirectory, security_paths, revocation_path}
use target_facade.Security.Provision.{provision_self}

-- m_listHubs
pub record LiveHub : Type 0 where
  pub handle : ℕ
  pub hub : Hub

abbrev pub HubList : Type 0
HubList = List LiveHub

-- FindHubLocked
unfoldable pub find_live : WString → HubList → Option LiveHub
find_live address [] = none
find_live address (l ∷ ls) = if equal l.hub.address address then some l else find_live address ls

abbrev pub is_taken : WString → HubList → Bool
is_taken address ls = elim (find_live address ls) [ none ↦ false | some l ↦ true ]

unfoldable pub remove_hub : ℕ → HubList → HubList
remove_hub handle [] = []
remove_hub handle (l ∷ ls) =
    let rest = l ∷ remove_hub handle ls in if l.handle == handle then ls else rest

-- one round of CloseAllHubs
abbrev pub drop_head : HubList → HubList
drop_head [] = []
drop_head (l ∷ ls) = ls

-- CloseAllHubs, as far as the list goes: the hubs that it closes, in order
unfoldable pub close_all_hubs : HubList → List ℕ × HubList
close_all_hubs [] = ([], [])
close_all_hubs (l ∷ ls) = let r = close_all_hubs ls in (l.handle ∷ r.0, r.1)

-- The last section of CreateHubEx.
unfoldable pub publish_hub : LiveHub → HubList → HResult × HubList
publish_hub l ls = if is_taken l.hub.address ls then (e_hub_duplicate, ls) else (s_ok, ls ++ l ∷ [])

abbrev pub caller_pumped_flag : ℕ → Bool
caller_pumped_flag flags = flags % 2 == 1

abbrev pub secure_flag : ℕ → Bool
secure_flag flags = flags / 2 % 2 == 1

-- What CreateHubEx is called with, null pointers as none and false.
pub record HubRequest : Type 0 where
  pub address : Option WString
  pub has_events : Bool
  pub has_out : Bool
  pub flags : ℕ

module _ (p : Policy) where
  -- What the call finds: the handle of the new object, whether its pump starts, and what other threads
  -- make of the list between the two sections that look at it.
  pub record Spawn : Type 0 where
    pub handle : ℕ
    pub started : Bool
    pub fresh_auth : p.Auth
    pub meanwhile : HubList → HubList

  -- What a network keeps of its hubs and of their keys.
  pub record Estate : Type 0 where
    pub hubs : HubList
    pub dirs : KeyDirectory
    pub disk : p.Disk

  abbrev pub refuse_hub : HResult → Estate → HResult × Option ℕ × Estate
  refuse_hub code s = (code, none, s)

  -- CreateHubEx behind the keys
  unfoldable pub start_and_publish : Hub → Bool → Spawn → Estate → HResult × Option ℕ × Estate
  start_and_publish hub pumped sp s =
      let live : LiveHub = record {
        handle = sp.handle;
        hub = record hub { caller_pumped = pumped };
      } in
      let r = publish_hub live (sp.meanwhile s.hubs) in
      if not sp.started
      then refuse_hub e_hub_spawn s
      else (r.0, if failed r.0 then none else some sp.handle, record s { hubs = r.1 })

  unfoldable pub create_secure : WString → Bool → Spawn → Estate → HResult × Option ℕ × Estate
  create_secure address pumped sp s =
      let paths = security_paths p s.dirs s.disk in
      let asked : Estate = record s { dirs = paths.1; disk = paths.2 } in
      let made =
        provision_self p paths.1.dir (revocation_path p paths.1.dir) (new_hub address true false)
          sp.fresh_auth paths.2 in
      let keyed : Estate = record asked { disk = made.3 } in
      if failed paths.0
      then refuse_hub paths.0 asked
      else if not (is_id_ok made.0)
      then refuse_hub e_security keyed
      else start_and_publish made.1 pumped sp keyed

  -- by the secure flag
  unfoldable pub create_by : Bool → WString → Bool → Spawn → Estate → HResult × Option ℕ × Estate
  create_by true address pumped sp s = create_secure address pumped sp s
  create_by false address pumped sp s = start_and_publish (new_hub address false false) pumped sp s

  unfoldable pub create_at :
      Option WString → HubRequest → Spawn → Estate → HResult × Option ℕ × Estate
  create_at none q sp s = refuse_hub e_pointer s
  create_at (some address) q sp s =
      if not q.has_events || not q.has_out
      then refuse_hub e_pointer s
      else if is_empty address
      then refuse_hub e_invalid_arg s
      else if not (q.flags / 4 == 0)
      then refuse_hub e_invalid_arg s
      else if is_taken address s.hubs
      then refuse_hub e_hub_duplicate s
      else create_by (secure_flag q.flags) address (caller_pumped_flag q.flags) sp s

  -- CreateHubEx; CreateHub is the call with no flag. It yields what it writes to its out parameter.
  unfoldable pub create_hub_ex : HubRequest → Spawn → Estate → HResult × Option ℕ × Estate
  create_hub_ex q sp s = create_at q.address q sp s

-- s_pInstance and m_cRef: the references on the network of the process, where there is one.
abbrev pub Process : Type 0
Process = Option ℕ

-- Acquire, by what StartupP2Pmsg and WSAStartup answer
unfoldable pub acquire : Bool → Bool → Process → HResult × Process
acquire msg_up wsa_up none = if msg_up && wsa_up then (s_ok, some 1) else (e_startup, none)
acquire msg_up wsa_up (some refs) = (s_ok, some (refs + 1))

abbrev pub abi_version_min : ℕ
abi_version_min = 4

abbrev pub abi_version : ℕ
abi_version = 11

unfoldable pub create_network : ℕ → Bool → Bool → Bool → Process → HResult × Process
create_network abi has_out msg_up wsa_up pr =
    if not has_out
    then (e_pointer, pr)
    else if ltb abi abi_version_min || ltb abi_version abi
    then (e_abi_mismatch, pr)
    else acquire msg_up wsa_up pr

-- Release on a reference: what it returns
unfoldable pub release : Process → ℕ × Process
release none = (0, none)
release (some refs) = if ltb 0 (refs - 1) then (refs - 1, some (refs - 1)) else (0, none)
