-- ===== src/Deployment/Calls.antt =====
-- What the calls on the deployment map keep and what they yield.
use target_facade.Base.{
  ◌≡◌, ◌≢◌, inl, inr, refl, true, false, ◌||◌, List, [], ◌∷◌, Option, none, some, arith, Bool-cases,
}
use target_facade.Base.Text.{WString, is_empty, equal_iff, equal_refl}
use target_facade.Base.SortedMap.{lookup, insert, lookup-insert}
use target_facade.Status.{s_ok, e_unresolved, failed, ok, err, Result-cases}
use target_facade.Platform.{Platform, IsPlatform}
use target_facade.Endpoint.{FacadeEndpoint, blank_endpoint, format, parse_endpoint}
use target_facade.Endpoint.Canonical.{Canonical}
use target_facade.Endpoint.RoundTrip.{parse-format}
use target_facade.Endpoint.Peer.{is_swapped_peer_argument}
use target_facade.Endpoint.Map.{
  EndpointMap, MapResult, parsed, bad_line, parse_endpoint_map, is_serial,
}
use target_facade.Endpoint.Map.Entries.{
  IsDeployment, IsDeployment-empty, insert-IsDeployment, erase-IsDeployment, spelled-IsEntry,
  parse_endpoint_map-IsDeployment, IsDeployment-parses,
}
use target_facade.Deployment.{
  store_endpoint, change_entry, set_endpoint, swap_map, set_endpoint_map, lookup_endpoint, SetCall,
  one_call, map_call, set_call, run_sets,
}

module _ (p : Platform) (w : IsPlatform p) where
  store_endpoint-IsDeployment :
      (address endpoint : WString) (m : EndpointMap)
      → (is_empty address || is_swapped_peer_argument (some address)) ≡ false
      → IsDeployment p m
      → IsDeployment p
          (store_endpoint address (parse_endpoint p (some endpoint) false blank_endpoint) m).1
  unfolding store_endpoint
  store_endpoint-IsDeployment address endpoint m g d =
      elim (Result-cases (parse_endpoint p (some endpoint) false blank_endpoint)) [
        | inl (e, r) ↦ rw r (elim (Bool-cases (is_serial e.kind)) [
          | inl k ↦ rw k d
          | inr k ↦ rw k (
              insert-IsDeployment p address (format e) m d
                (spelled-IsEntry p w address endpoint g r k))
        ])
        | inr (c, r) ↦ rw r d
      ]

  change_entry-IsDeployment :
      (address : WString) (endpoint : Option WString) (m : EndpointMap)
      → (is_empty address || is_swapped_peer_argument (some address)) ≡ false
      → IsDeployment p m
      → IsDeployment p (change_entry p address endpoint m).1
  unfolding change_entry
  change_entry-IsDeployment address none m g d = erase-IsDeployment p address m d
  change_entry-IsDeployment address (some endpoint) m g d = elim (Bool-cases (is_empty endpoint)) [
    | inl e ↦ rw e (erase-IsDeployment p address m d)
    | inr e ↦ rw e (store_endpoint-IsDeployment address endpoint m g d)
  ]

  set_endpoint-IsDeployment :
      (address endpoint : Option WString) (m : EndpointMap)
      → IsDeployment p m
      → IsDeployment p (set_endpoint p address endpoint m).1
  unfolding set_endpoint
  set_endpoint-IsDeployment none endpoint m d = d
  set_endpoint-IsDeployment (some address) endpoint m d =
      elim (Bool-cases (is_empty address || is_swapped_peer_argument (some address))) [
        | inl g ↦ rw g d
        | inr g ↦ rw g (change_entry-IsDeployment address endpoint m g d)
      ]

  swap_map-IsDeployment :
      (text : Option WString) (m : EndpointMap)
      → IsDeployment p m
      → (r : MapResult) → parse_endpoint_map p text ≡ r
      → IsDeployment p (swap_map r m).2
  unfolding swap_map
  swap_map-IsDeployment text m d (parsed fresh) h = parse_endpoint_map-IsDeployment p w text h
  swap_map-IsDeployment text m d (bad_line n) h = d

  set_call-IsDeployment :
      (c : SetCall) (m : EndpointMap) → IsDeployment p m → IsDeployment p (set_call p c m).1
  unfolding set_call set_endpoint_map
  set_call-IsDeployment (one_call address endpoint) m d =
      set_endpoint-IsDeployment address endpoint m d
  set_call-IsDeployment (map_call text) m d =
      swap_map-IsDeployment text m d (parse_endpoint_map p text) refl

  -- Whatever calls of SetEndpoint and SetEndpointMap are made on a new network, and in whatever
  -- order, on a platform that behaves as documented, the map holds each address once, in order, under canonical spellings of dial endpoints
  -- other than serial ones.
  pub run_sets-IsDeployment : (cs : List SetCall) → IsDeployment p (run_sets p cs [])
  run_sets-IsDeployment cs = from cs [] (IsDeployment-empty p)
    where
      from :
          (cs : List SetCall) (m : EndpointMap)
          → IsDeployment p m
          → IsDeployment p (run_sets p cs m)
      from [] m d = d
      from (c ∷ cs) m d = from cs (set_call p c m).1 (set_call-IsDeployment c m d)

  -- On a platform that behaves as documented, LookupEndpoint of an address that is not empty never
  -- fails on an entry of such a map: it yields a canonical dial endpoint
  -- that is spelled as the map spells it, and fails as unresolved for an address without an entry.
  pub lookup_endpoint_total :
      (m : EndpointMap) (address : WString) (out : FacadeEndpoint)
      → IsDeployment p m
      → is_empty address ≡ false
      → (lookup address m ≡ none → lookup_endpoint p (some address) out m ≡ err e_unresolved)
        × ((value : WString)
            → lookup address m ≡ some value
            → (e : FacadeEndpoint) × (lookup_endpoint p (some address) out m ≡ ok e)
              × (format e ≡ value)
              × Canonical p false e
              × (is_serial e.kind ≡ false))
  unfolding lookup_endpoint
  lookup_endpoint_total m address out d filled = (
    λ h. rw (filled, h) refl,
    λ value h.
        let i = IsDeployment-parses p w m address value out d h in
        (i.0, rw (filled, h) i.1, i.2, i.3, i.4),
  )

  -- A call of SetEndpoint or SetEndpointMap that fails leaves the map as it was.
  pub set_call-failed :
      (c : SetCall) (m : EndpointMap) → failed (set_call p c m).0 ≡ true → (set_call p c m).1 ≡ m
  unfolding set_call set_endpoint set_endpoint_map swap_map change_entry store_endpoint
  set_call-failed (one_call none endpoint) m h = refl
  set_call-failed (one_call (some address) none) m h = ground arith
  set_call-failed (one_call (some address) (some endpoint)) m h =
      elim (Result-cases (parse_endpoint p (some endpoint) false blank_endpoint)) [
        | inl (e, r) ↦ ground arith
        | inr (c, r) ↦ ground arith
      ]
  set_call-failed (map_call text) m h = ground arith

  -- When SetEndpoint succeeds on an endpoint that is not empty and parses as a dial, on a platform
  -- that behaves as documented, LookupEndpoint of that address
  -- yields the parsed endpoint, and the entry of every other address stays.
  pub lookup_endpoint-set_endpoint :
      (m n : EndpointMap) (address endpoint : WString) (e out : FacadeEndpoint)
      → is_empty endpoint ≡ false
      → parse_endpoint p (some endpoint) false blank_endpoint ≡ ok e
      → set_endpoint p (some address) (some endpoint) m ≡ (s_ok, n)
      → (lookup_endpoint p (some address) out n ≡ ok (record e { derived = out.derived }))
        × ((other : WString) → other ≢ address → lookup other n ≡ lookup other m)
  unfolding lookup_endpoint set_endpoint change_entry store_endpoint
  lookup_endpoint-set_endpoint m n address endpoint e out filled r h =
      let stored : n ≡ insert address (format e) m = ground arith in
      let named : is_empty address ≡ false = ground arith in
      let found : lookup address n ≡ some (format e) =
        ground (arith, lookup-insert address address (format e) m, equal_refl address) in
      (
        rw (named, found) (parse-format p w endpoint false blank_endpoint out r),
        λ other ne.
            ground (arith, lookup-insert address other (format e) m, equal_iff address other),
      )
