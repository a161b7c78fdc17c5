-- ===== src/Registry/Distinct.antt =====
-- The addresses of the live hubs of a network.
use target_facade.Base.{ℕ, ◌≡◌, refl, false, List, [], ◌∷◌, ◌++◌, arith, ◌==◌, if_both}
use target_facade.Base.Text.{WString, equal, equal_iff}
use target_facade.Status.{HResult}
use target_facade.Registry.{
  LiveHub, HubList, find_live, is_taken, remove_hub, drop_head, publish_hub,
}

-- no hub of the list has the address of a later one
abbrev pub IsDistinct : HubList → Type 0
IsDistinct [] = Unit
IsDistinct (l ∷ ls) = (is_taken l.hub.address ls ≡ false) × IsDistinct ls

-- The sections that change the list, in any order.
pub data ListCall : Type 0 where
  publishes : LiveHub → ListCall
  removes : ℕ → ListCall
  takes_head : ListCall

abbrev pub list_call : ListCall → HubList → HubList
list_call (publishes l) ls = (publish_hub l ls).1
list_call (removes handle) ls = remove_hub handle ls
list_call takes_head ls = drop_head ls

abbrev pub list_calls : List ListCall → HubList → HubList
list_calls [] ls = ls
list_calls (c ∷ cs) ls = list_calls cs (list_call c ls)

is_taken-append :
    (a : WString) (l : LiveHub) (ls : HubList)
    → is_taken a ls ≡ false
    → equal l.hub.address a ≡ false
    → is_taken a (ls ++ l ∷ []) ≡ false
unfolding find_live
is_taken-append a l [] free other = ground arith
is_taken-append a l (m ∷ ls) free other = ground (arith, is_taken-append a l ls)

append-IsDistinct :
    (l : LiveHub) (ls : HubList)
    → IsDistinct ls
    → is_taken l.hub.address ls ≡ false
    → IsDistinct (ls ++ l ∷ [])
unfolding find_live
append-IsDistinct l [] d free = (refl, tt)
append-IsDistinct l (m ∷ ls) d free = (
  is_taken-append m.hub.address l ls d.0 (
      ground (arith, equal_iff l.hub.address m.hub.address, equal_iff m.hub.address l.hub.address)),
  append-IsDistinct l ls d.1 (ground arith),
)

is_taken-remove_hub :
    (a : WString) (handle : ℕ) (ls : HubList)
    → is_taken a ls ≡ false
    → is_taken a (remove_hub handle ls) ≡ false
unfolding find_live remove_hub
is_taken-remove_hub a handle [] free = refl
is_taken-remove_hub a handle (l ∷ ls) free = ground (arith, is_taken-remove_hub a handle ls)

remove_hub-IsDistinct :
    (handle : ℕ) (ls : HubList) → IsDistinct ls → IsDistinct (remove_hub handle ls)
unfolding remove_hub
remove_hub-IsDistinct handle [] d = tt
remove_hub-IsDistinct handle (l ∷ ls) d =
    if_both IsDistinct (l.handle == handle) ls (l ∷ remove_hub handle ls) (λ e. d.1)
      (λ e. (is_taken-remove_hub l.hub.address handle ls d.0, remove_hub-IsDistinct handle ls d.1))

list_call-IsDistinct : (c : ListCall) (ls : HubList) → IsDistinct ls → IsDistinct (list_call c ls)
unfolding publish_hub
list_call-IsDistinct (publishes l) ls d =
    if_both (λ (r : HResult × HubList). IsDistinct r.1) (is_taken l.hub.address ls) _ _ (λ e. d)
      (λ e. append-IsDistinct l ls d e)
list_call-IsDistinct (removes handle) ls d = remove_hub-IsDistinct handle ls d
list_call-IsDistinct takes_head [] d = tt
list_call-IsDistinct takes_head (l ∷ ls) d = d.1

-- Whatever the threads of a process do with a network, in whatever order their sections run, no two of
-- its live hubs ever share an address.
pub list_calls-IsDistinct :
    (cs : List ListCall) (ls : HubList) → IsDistinct ls → IsDistinct (list_calls cs ls)
list_calls-IsDistinct [] ls d = d
list_calls-IsDistinct (c ∷ cs) ls d =
    list_calls-IsDistinct cs (list_call c ls) (list_call-IsDistinct c ls d)
