-- ===== src/Endpoint/RoundTrip/Pieces.antt =====
-- What the parse answers on the pieces of an endpoint's spelling.
use target_facade.Base.{
  ℕ, ◌^◌, ◌≤◌, ◌<◌, ◌≡◌, inl, inr, refl, ◌∙◌, Bool, true, false, [], ◌∷◌, ◌++◌, some, arith,
}
use target_facade.Base.Lists.{all, take-append, drop_past-append}
use target_facade.Base.Text.{WString, codes, equal, is_empty, has}
use target_facade.Base.TextLaws.{
  find-append, reverse_find-append, last_kept, trim-kept, last_kept-append,
}
use target_facade.Base.Decimal.{decimal, is_digit, decimal_value, decimal_digits, decimal-ne-nil}
use target_facade.Status.{ok}
use target_facade.Platform.{Platform, IsPlatform}
use target_facade.Endpoint.Hosts.{IsBracketed, IsPlain}
use target_facade.Endpoint.Schemes.{
  tcp_scheme-family, tcp_scheme-other, is_scheme-plain, is_scheme_refl,
}
use target_facade.Endpoint.Scan.{scan_uint_value}
use target_facade.Endpoint.{
  tcp, pipe, dmx, serial, Family, ipv4, ipv6, dual, FacadeEndpoint, HostPort, TcpScheme, port_max,
  com_port_max, split_host, split_plain, ranged, place_tcp, listen_family, dial_family, parse_tcp,
  parse_named, parse_serial, parse_target, tcp_scheme, strip_slashes, parse_trimmed, parse_endpoint,
  family_scheme, is_any_host4,
}

-- A decimal number reads back as itself.
pub ranged-decimal : (top n : ℕ) → 1 ≤ n → n ≤ top → top < 2 ^ 32 → ranged top (decimal n) ≡ ok n
unfolding ranged
ranged-decimal top n low high small = ground (
  arith,
  scan_uint_value (decimal n),
  decimal_digits n,
  decimal-ne-nil n,
  decimal_value n (omega arith),
)

-- Digits hold no colon.
pub digits-no_colon : (s : WString) → all is_digit s ≡ true → has b':' s ≡ false
unfolding has
digits-no_colon [] h = refl
digits-no_colon (c ∷ s) h = ground (arith, digits-no_colon s)

pub bare_port :
    (digits : WString)
    → has b':' digits ≡ false
    → split_host (b':' ∷ digits) ≡ ok (record { host = []; port = digits; bracketed = false })
unfolding split_host split_plain equal has
bare_port digits h = ground (arith, reverse_find-append b':' [] digits h)

module _ (p : Platform) (w : IsPlatform p) where
  pub digits-kept : (s : WString) → all is_digit s ≡ true → last_kept p.is_space s ≡ true
  digits-kept [] h = refl
  digits-kept (c ∷ []) h = ground (arith, w.graph_kept c)
  digits-kept (c ∷ d ∷ s) h = digits-kept (d ∷ s) (ground arith)

  -- "scheme:" in front of a target that starts with "//"
  pub trimmed_spelled :
      (listen : Bool) (c : ℕ) (scheme rest : WString) (out : FacadeEndpoint)
      → has b':' (c ∷ scheme) ≡ false
      → parse_trimmed p listen ((c ∷ scheme) ++ (codes "://" ++ rest)) out
        ≡ parse_target p listen (c ∷ scheme) rest out
  unfolding parse_trimmed strip_slashes equal
  trimmed_spelled listen c scheme rest out h =
      let tail = codes "//" ++ rest in
      ground (
        arith,
        find-append b':' (c ∷ scheme) tail h,
        take-append (c ∷ scheme) (b':' ∷ tail),
        drop_past-append (c ∷ scheme) b':' tail,
      )

  -- "scheme://rest" reaches the parse of the scheme with the rest as it stands.
  pub parse_spelled :
      (listen : Bool) (c : ℕ) (scheme : WString) (d : ℕ) (rest : WString) (out : FacadeEndpoint)
      → has b':' (c ∷ scheme) ≡ false
      → p.is_space c ≡ false
      → last_kept p.is_space (d ∷ rest) ≡ true
      → parse_endpoint p (some ((c ∷ scheme) ++ (codes "://" ++ d ∷ rest))) listen out
        ≡ parse_target p listen (c ∷ scheme) (d ∷ rest) out
  unfolding parse_endpoint
  parse_spelled listen c scheme d rest out h sp k =
      rw
        (trim-kept p.is_space ((c ∷ scheme) ++ (codes "://" ++ d ∷ rest)) (rw sp)
          (last_kept-append p.is_space (c ∷ scheme) b':' (codes "//" ++ d ∷ rest) ∙ k))
        (trimmed_spelled listen c scheme (d ∷ rest) out h)

  pub named_target :
      (listen : Bool) (name : WString) (out : FacadeEndpoint)
      → is_empty name ≡ false
      → (parse_target p listen (codes "pipe") name out
          ≡ ok (record out { kind = pipe; name = name; host = []; num = 0; family = ipv4 }))
        × (parse_target p listen (codes "dmx") name out
            ≡ ok (record out { kind = dmx; name = name; host = []; num = 0; family = ipv4 }))
  unfolding parse_target parse_named equal
  named_target listen name out f = (
    ground (
      arith,
      tcp_scheme-other p w (codes "pipe") refl (inl refl),
      is_scheme-plain p w (codes "pipe") (codes "pipe") refl refl,
    ),
    ground (
      arith,
      tcp_scheme-other p w (codes "dmx") refl (inr (inl refl)),
      is_scheme-plain p w (codes "dmx") (codes "pipe") refl refl,
      is_scheme-plain p w (codes "dmx") (codes "dmx") refl refl,
    ),
  )

  pub serial_target :
      (listen : Bool) (n : ℕ) (out : FacadeEndpoint)
      → 1 ≤ n
      → n ≤ com_port_max
      → parse_target p listen (codes "serial") (codes "COM" ++ decimal n) out
        ≡ ok (record out { kind = serial; num = n; family = ipv4; host = []; name = [] })
  unfolding parse_target parse_serial equal
  serial_target listen n out low high = ground (
    arith,
    tcp_scheme-other p w (codes "serial") refl (inr (inr refl)),
    is_scheme-plain p w (codes "serial") (codes "pipe") refl refl,
    is_scheme-plain p w (codes "serial") (codes "dmx") refl refl,
    is_scheme-plain p w (codes "serial") (codes "serial") refl refl,
    is_scheme_refl p (codes "COM"),
    ranged-decimal com_port_max n low high (omega arith),
  )

  pub tcp_target :
      (listen : Bool) (f : Family) (target : WString) (out : FacadeEndpoint)
      → parse_target p listen (family_scheme f) target out
        ≡ parse_tcp p listen (tcp_scheme p (family_scheme f)) target out
  unfolding parse_target family_scheme equal
  tcp_target listen ipv4 target out = ground (arith, tcp_scheme-family p w ipv4)
  tcp_target listen ipv6 target out = ground (arith, tcp_scheme-family p w ipv6)
  tcp_target listen dual target out = ground (arith, tcp_scheme-family p w dual)

  -- parse_tcp on a target that splits and has a port in range
  pub tcp_placed :
      (listen : Bool) (scheme : TcpScheme) (target : WString) (at : HostPort) (n : ℕ)
      (out : FacadeEndpoint)
      → split_host target ≡ ok at
      → at.port ≡ decimal n
      → 1 ≤ n
      → n ≤ port_max
      → parse_tcp p listen scheme target out ≡ place_tcp p listen scheme at n out
  unfolding parse_tcp
  tcp_placed listen scheme target at n out s d low high =
      ground (arith, ranged-decimal port_max n low high (omega arith))

  pub place_listen :
      (f : Family) (n : ℕ) (out : FacadeEndpoint)
      → place_tcp p true
          (tcp_scheme p (family_scheme f))
          (record { host = []; port = decimal n; bracketed = false })
          n
          out
        ≡ ok (record out { kind = tcp; family = f; host = []; name = []; num = n })
  unfolding place_tcp listen_family is_any_host4 family_scheme equal
  place_listen ipv4 n out = rw (tcp_scheme-family p w ipv4)
  place_listen ipv6 n out = rw (tcp_scheme-family p w ipv6)
  place_listen dual n out = rw (tcp_scheme-family p w dual)

  pub place_plain :
      (host : WString) (f : Family) (n : ℕ) (out : FacadeEndpoint)
      → IsPlain p host f
      → place_tcp p false
          (tcp_scheme p (family_scheme f))
          (record { host = host; port = decimal n; bracketed = false })
          n
          out
        ≡ ok (record out { kind = tcp; family = f; host = host; name = []; num = n })
  unfolding place_tcp dial_family family_scheme equal
  place_plain host ipv4 n out h = ground (arith, tcp_scheme-family p w ipv4)
  place_plain host ipv6 n out h = ground (arith, tcp_scheme-family p w ipv6)
  place_plain host dual n out h = ground (arith, tcp_scheme-family p w dual)

  pub has-filled : (c : ℕ) (s : WString) → has c s ≡ true → is_empty s ≡ false
  unfolding has
  has-filled c [] h = cc
  has-filled c (x ∷ s) h = refl

  pub place_bracketed :
      (host : WString) (f : Family) (n : ℕ) (out : FacadeEndpoint)
      → IsBracketed p host f
      → place_tcp p false
          (tcp_scheme p (family_scheme f))
          (record { host = host; port = decimal n; bracketed = true })
          n
          out
        ≡ ok (record out { kind = tcp; family = f; host = host; name = []; num = n })
  unfolding place_tcp dial_family family_scheme equal
  place_bracketed host ipv4 n out h = ground arith
  place_bracketed host ipv6 n out h =
      ground (arith, tcp_scheme-family p w ipv6, has-filled b':' host h.colon)
  place_bracketed host dual n out h =
      ground (arith, tcp_scheme-family p w dual, has-filled b':' host h.colon)
