-- ===== src/Resolve/Rendezvous.antt =====
-- A listener and the dialer that resolves against it.
use target_facade.Base.{
  ◌≡◌, inl, inr, Bool-cases, refl, ◌∙◌, true, false, ◌++◌, [], ◌∷◌, none, some, arith,
}
use mathlib.Core.Path.{ap}
use target_facade.Base.Text.{WString, codes, is_empty, has, equal_refl}
use target_facade.Base.SortedMap.{lookup, insert, lookup-insert}
use target_facade.Base.Decimal.{decimal}
use target_facade.Status.{ok}
use target_facade.Platform.{Platform, IsPlatform}
use target_facade.Endpoint.{
  Transport, tcp, pipe, dmx, serial, Family, ipv4, ipv6, dual, FacadeEndpoint, blank_endpoint,
  family_scheme, format_kind, format,
}
use target_facade.Endpoint.Peer.{derive_dmx_service}
use target_facade.Endpoint.Canonical.{Canonical}
use target_facade.Endpoint.RoundTrip.{format-Canonical}
use target_facade.Deployment.{lookup_endpoint}
use target_facade.Hub.{Hub, ArmedCon, armed_listener}
use target_facade.Resolve.{
  Network, find_hub, reach, reach_listener, resolve_dial, resolve_endpoint, resolve_in_process,
}

filled-append : (a b : WString) → is_empty a ≡ false → is_empty (a ++ b) ≡ false
filled-append [] b h = cc
filled-append (c ∷ a) b h = refl

family_filled : (f : Family) → is_empty (family_scheme f) ≡ false
unfolding family_scheme
family_filled ipv4 = refl
family_filled ipv6 = refl
family_filled dual = refl

format-filled : (k : Transport) (e : FacadeEndpoint) → is_empty (format_kind k e) ≡ false
unfolding format_kind family_scheme
format-filled tcp e = elim (Bool-cases (has b':' e.host)) [
  | inl v6 ↦ rw v6 (
      filled-append (family_scheme e.family)
        (codes "://[" ++ (e.host ++ (codes "]:" ++ decimal e.num))) (family_filled e.family))
  | inr v4 ↦ rw v4 (
      filled-append (family_scheme e.family)
        (codes "://" ++ (e.host ++ (codes ":" ++ decimal e.num))) (family_filled e.family))
]
format-filled pipe e = refl
format-filled dmx e = refl
format-filled serial e = refl

module _ (p : Platform) (w : IsPlatform p) where
  listener-armed :
      (dialer : WString) (e : FacadeEndpoint) (h : Hub)
      → is_empty dialer ≡ false
      → lookup dialer h.armed ≡ some (record { endpoint = format e; listen = true })
      → armed_listener dialer h ≡ format e
  unfolding armed_listener
  listener-armed dialer e h asking armed = rw (asking, armed) refl

  reach_listener-format :
      (e out : FacadeEndpoint)
      → Canonical p true e
      → reach_listener p (format e) out ≡ ok (reach e.kind (record e { derived = out.derived }))
  unfolding reach_listener
  reach_listener-format e out can =
      rw (format-filled e.kind e, format-Canonical p w true e out can) refl

  -- On a platform that behaves as documented, a dial between two addresses that are not empty
  -- resolves against the canonical listener that the first hub of the peer's address has recorded for
  -- the dialer: it yields that listener's endpoint, with the loopback host of its family where it is a tcp one,
  -- and the derived flag that the caller's structure held.
  pub resolve_dial-listener :
      (peer dialer : WString) (e out : FacadeEndpoint) (h : Hub) (net : Network)
      → is_empty peer ≡ false
      → is_empty dialer ≡ false
      → find_hub peer net.hubs ≡ some h
      → lookup dialer h.armed ≡ some (record { endpoint = format e; listen = true })
      → Canonical p true e
      → resolve_dial p peer dialer out net ≡ ok (reach e.kind (record e { derived = out.derived }))
  unfolding resolve_dial
  resolve_dial-listener peer dialer e out h net named asking found armed can =
      rw (named, asking, found)
        (ap (λ s. reach_listener p s out) (listener-armed dialer e h asking armed)
          ∙ reach_listener-format e out can)

  -- Two hubs meet when neither address is empty, the map has no entry for the listener's address
  -- and the derived service is a canonical name, on a platform that behaves as documented: what the first one listens at for the second, once
  -- it has recorded it, is the in-process service that the second one's dial resolves to, stamped
  -- as derived so that the dial is retried.
  pub resolve_endpoint-meets :
      (a b : Hub) (before after : Network)
      → is_empty a.address ≡ false
      → is_empty b.address ≡ false
      → lookup a.address before.endpoints ≡ none
      → lookup a.address after.endpoints ≡ none
      → let at = record blank_endpoint {
        kind = dmx;
        name = derive_dmx_service a.address b.address;
        derived = true;
      } in
        Canonical p true at
        → find_hub a.address after.hubs
          ≡ some (record a {
            armed = insert b.address (record { endpoint = format at; listen = true }) a.armed;
          })
        → (resolve_endpoint p (some before) a b.address true blank_endpoint ≡ ok at)
          × (resolve_endpoint p (some after) b a.address false blank_endpoint ≡ ok at)
  unfolding resolve_endpoint lookup_endpoint resolve_in_process reach
  resolve_endpoint-meets a b before after named other free still can found =
      let at : FacadeEndpoint = record blank_endpoint {
        kind = dmx;
        name = derive_dmx_service a.address b.address;
        derived = true;
      } in
      let entry : ArmedCon = record { endpoint = format at; listen = true } in
      let listed : lookup b.address (insert b.address entry a.armed) ≡ some entry =
        ground (arith, lookup-insert b.address b.address entry a.armed, equal_refl b.address) in
      let listening : Hub = record a { armed = insert b.address entry a.armed } in
      let dial =
        resolve_dial-listener a.address b.address at blank_endpoint listening after named other
          found listed can in
      (rw (named, free) refl, rw (other, named, still, dial) refl)
