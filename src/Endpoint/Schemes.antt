-- ===== src/Endpoint/Schemes.antt =====
-- Which schemes parse as what: the scheme tests on the schemes that Format writes.
use target_facade.Base.{ℕ, ◌≡◌, ◌⊎◌, refl, Bool, true, false, ◌&&◌, ◌||◌, [], ◌∷◌, arith, map, leb}
use target_facade.Base.Lists.{all}
use target_facade.Base.Text.{WString, codes, equal, equal_refl}
use target_facade.Platform.{Platform, IsPlatform}
use target_facade.Endpoint.{Family, ipv4, ipv6, dual, tcp_scheme, is_scheme, family_scheme}

-- a lower-case letter or a digit
abbrev plain_unit : ℕ → Bool
plain_unit c = (leb b'a' c && leb c b'z') || (leb b'0' c && leb c b'9')

pub is_scheme_refl : (p : Platform) (s : WString) → is_scheme p s s ≡ true
unfolding is_scheme
is_scheme_refl p s = equal_refl (map p.to_lower s)

module _ (p : Platform) (h : IsPlatform p) where
  plain_unit-kept : (c : ℕ) → plain_unit c ≡ true → p.to_lower c ≡ c
  plain_unit-kept c e = ground (arith, h.lower_kept c, h.digit_kept c)

  lower-kept : (s : WString) → all plain_unit s ≡ true → map p.to_lower s ≡ s
  lower-kept [] e = refl
  lower-kept (c ∷ s) e = ground (arith, plain_unit-kept c, lower-kept s)

  pub is_scheme-plain :
      (a b : WString)
      → all plain_unit a ≡ true
      → all plain_unit b ≡ true
      → is_scheme p a b ≡ equal a b
  unfolding is_scheme
  is_scheme-plain a b e f = rw (lower-kept a e) (rw (lower-kept b f))

  tcp_scheme-plain :
      (s : WString)
      → all plain_unit s ≡ true
      → tcp_scheme p s ≡ record {
        auto = equal s (codes "tcp");
        v4 = equal s (codes "tcp4") || equal s (codes "ipv4");
        v6 = equal s (codes "tcp6") || equal s (codes "ipv6");
        v46 = equal s (codes "tcp46");
      }
  unfolding tcp_scheme
  tcp_scheme-plain s e =
      let kept = λ (w : WString). is_scheme-plain s w e in
      ground (
        arith,
        kept (codes "tcp") refl,
        kept (codes "tcp4") refl,
        kept (codes "ipv4") refl,
        kept (codes "tcp6") refl,
        kept (codes "ipv6") refl,
        kept (codes "tcp46") refl,
      )

  -- The scheme of each family names that family and no other.
  pub tcp_scheme-family :
      (f : Family)
      → tcp_scheme p (family_scheme f) ≡ record {
        auto = equal (family_scheme f) (codes "tcp");
        v4 = false;
        v6 = equal (family_scheme f) (codes "tcp6");
        v46 = equal (family_scheme f) (codes "tcp46");
      }
  unfolding family_scheme equal
  tcp_scheme-family ipv4 = tcp_scheme-plain (codes "tcp") refl
  tcp_scheme-family ipv6 = tcp_scheme-plain (codes "tcp6") refl
  tcp_scheme-family dual = tcp_scheme-plain (codes "tcp46") refl

  -- No other scheme is a tcp scheme.
  pub tcp_scheme-other :
      (s : WString)
      → all plain_unit s ≡ true
      → (s ≡ codes "pipe") ⊎ ((s ≡ codes "dmx") ⊎ (s ≡ codes "serial"))
      → tcp_scheme p s ≡ record { auto = false; v4 = false; v6 = false; v46 = false }
  unfolding equal
  tcp_scheme-other s e which = ground (arith, tcp_scheme-plain s e)
