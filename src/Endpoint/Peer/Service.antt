-- ===== src/Endpoint/Peer/Service.antt =====
-- DeriveDmxService: which listeners and dialers share a derived name.
use target_facade.Base.{◌≡◌, false, [], ◌∷◌, ◌++◌, arith}
use target_facade.Base.Text.{WString, has}
use target_facade.Endpoint.Peer.{derive_dmx_service}

bar_split :
    (a b c d : WString)
    → has b'|' a ≡ false
    → has b'|' c ≡ false
    → a ++ b'|' ∷ b ≡ c ++ b'|' ∷ d
    → (a ≡ c) × (b ≡ d)
unfolding has
bar_split [] b [] d h k e = ground arith
bar_split [] b (y ∷ c) d h k e = ground arith
bar_split (x ∷ a) b [] d h k e = ground arith
bar_split (x ∷ a) b (y ∷ c) d h k e = ground (arith, bar_split a b c d)

-- Two directed edges whose listeners hold no bar share a service name only if they are one edge.
derive_dmx_service-injective :
    (a b c d : WString)
    → has b'|' a ≡ false
    → has b'|' c ≡ false
    → derive_dmx_service a b ≡ derive_dmx_service c d
    → (a ≡ c) × (b ≡ d)
unfolding derive_dmx_service
derive_dmx_service-injective a b c d h k e = bar_split a b c d h k (ground arith)
