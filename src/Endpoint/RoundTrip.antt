-- ===== src/Endpoint/RoundTrip.antt =====
-- FacadeEndpoint::Format on what a parse yields, and a parse of that spelling.
mod Pieces
use target_facade.Base.{
  ℕ, ◌^◌, ◌≤◌, ◌<◌, ◌≡◌, inl, inr, refl, ◌∙◌, Bool, true, false, [], ◌∷◌, ◌++◌, some, arith,
}
use target_facade.Base.Lists.{all, take-append, drop_past-append}
use target_facade.Base.Text.{WString, codes, equal, is_empty, has}
use target_facade.Base.TextLaws.{
  find-append, reverse_find-append, last_kept, trim-kept, last_kept-append,
}
use target_facade.Base.Decimal.{decimal, is_digit, decimal_value, decimal_digits, decimal-ne-nil}
use target_facade.Status.{ok}
use target_facade.Platform.{Platform, IsPlatform}
use target_facade.Endpoint.Hosts.{IsBracketed, IsPlain, split_host-plain, split_host-bracketed}
use target_facade.Endpoint.Schemes.{
  tcp_scheme-family, tcp_scheme-other, is_scheme-plain, is_scheme_refl,
}
use target_facade.Endpoint.Scan.{scan_uint_value}
use target_facade.Endpoint.Canonical.{Canonical, CanonicalAs, parse_endpoint-Canonical}
use target_facade.Endpoint.{
  Transport, tcp, pipe, dmx, serial, Family, ipv4, ipv6, dual, FacadeEndpoint, HostPort, TcpScheme,
  port_max, com_port_max, split_host, split_plain, ranged, place_tcp, listen_family, dial_family,
  parse_tcp, parse_named, parse_serial, parse_target, tcp_scheme, strip_slashes, parse_trimmed,
  parse_endpoint, format, format_kind, family_scheme, is_any_host4,
}
use Pieces.{
  digits-no_colon, bare_port, digits-kept, parse_spelled, named_target, serial_target, tcp_target,
  tcp_placed, place_listen, place_plain, has-filled, place_bracketed,
}

module _ (p : Platform) (w : IsPlatform p) where
  scheme_spelled :
      (listen : Bool) (f : Family) (d : ℕ) (rest : WString) (out : FacadeEndpoint)
      → last_kept p.is_space (d ∷ rest) ≡ true
      → parse_endpoint p (some (family_scheme f ++ (codes "://" ++ d ∷ rest))) listen out
        ≡ parse_target p listen (family_scheme f) (d ∷ rest) out
  unfolding family_scheme has
  scheme_spelled listen ipv4 d rest out k =
      parse_spelled p w listen b't' (codes "cp") d rest out refl
        (w.graph_kept b't' (omega arith) (omega arith)) k
  scheme_spelled listen ipv6 d rest out k =
      parse_spelled p w listen b't' (codes "cp6") d rest out refl
        (w.graph_kept b't' (omega arith) (omega arith)) k
  scheme_spelled listen dual d rest out k =
      parse_spelled p w listen b't' (codes "cp46") d rest out refl
        (w.graph_kept b't' (omega arith) (omega arith)) k

  tcp_read :
      (listen : Bool) (f : Family) (d : ℕ) (rest : WString) (at : HostPort) (n : ℕ)
      (out : FacadeEndpoint)
      → last_kept p.is_space (d ∷ rest) ≡ true
      → split_host (d ∷ rest) ≡ ok at
      → at.port ≡ decimal n
      → 1 ≤ n
      → n ≤ port_max
      → parse_endpoint p (some (family_scheme f ++ (codes "://" ++ d ∷ rest))) listen out
        ≡ place_tcp p listen (tcp_scheme p (family_scheme f)) at n out
  tcp_read listen f d rest at n out k s e low high =
      scheme_spelled listen f d rest out k
      ∙ tcp_target p w listen f (d ∷ rest) out
      ∙ tcp_placed p w listen (tcp_scheme p (family_scheme f)) (d ∷ rest) at n out s e low high

  colon_digits-kept :
      (s : WString)
      → is_empty s ≡ false
      → all is_digit s ≡ true
      → last_kept p.is_space (b':' ∷ s) ≡ true
  colon_digits-kept [] f h = cc
  colon_digits-kept (c ∷ s) f h = digits-kept p w (c ∷ s) h

  port_kept : (a : WString) (n : ℕ) → last_kept p.is_space (a ++ b':' ∷ decimal n) ≡ true
  port_kept a n =
      last_kept-append p.is_space a b':' (decimal n)
      ∙ colon_digits-kept (decimal n) (decimal-ne-nil n) (decimal_digits n)

  listen_read :
      (f : Family) (n : ℕ) (out : FacadeEndpoint)
      → 1 ≤ n
      → n ≤ port_max
      → parse_endpoint p
          (some (family_scheme f ++ (codes "://" ++ (codes ":" ++ decimal n))))
          true
          out
        ≡ ok (record out { kind = tcp; family = f; host = []; name = []; num = n })
  listen_read f n out low high =
      tcp_read true f b':' (decimal n) (record { host = []; port = decimal n; bracketed = false }) n
        out (port_kept [] n)
        (bare_port (decimal n) (digits-no_colon (decimal n) (decimal_digits n))) refl low high
      ∙ place_listen p w f n out

  plain_read :
      (host : WString) (f : Family) (n : ℕ) (out : FacadeEndpoint)
      → 1 ≤ n
      → n ≤ port_max
      → IsPlain p host f
      → parse_endpoint p
          (some (family_scheme f ++ (codes "://" ++ (host ++ (codes ":" ++ decimal n)))))
          false
          out
        ≡ ok (record out { kind = tcp; family = f; host = host; name = []; num = n })
  plain_read [] f n out low high h = cc h.filled
  plain_read (c ∷ host) f n out low high h =
      tcp_read false f c (host ++ b':' ∷ decimal n)
        (record { host = c ∷ host; port = decimal n; bracketed = false }) n out
        (port_kept (c ∷ host) n)
        (split_host-plain (c ∷ host) (decimal n) h.filled h.no_colon h.no_close h.no_open
          (digits-no_colon (decimal n) (decimal_digits n)))
        refl low high
      ∙ place_plain p w (c ∷ host) f n out h

  bracketed_read :
      (host : WString) (f : Family) (n : ℕ) (out : FacadeEndpoint)
      → 1 ≤ n
      → n ≤ port_max
      → IsBracketed p host f
      → parse_endpoint p
          (some (family_scheme f ++ (codes "://[" ++ (host ++ (codes "]:" ++ decimal n)))))
          false
          out
        ≡ ok (record out { kind = tcp; family = f; host = host; name = []; num = n })
  bracketed_read host f n out low high h =
      tcp_read false f b'[' (host ++ b']' ∷ b':' ∷ decimal n)
        (record { host = host; port = decimal n; bracketed = true }) n out
        (last_kept-append p.is_space (b'[' ∷ host) b']' (b':' ∷ decimal n) ∙ port_kept [] n)
        (split_host-bracketed host (decimal n) (has-filled p w b':' host h.colon) h.no_close) refl
        low high
      ∙ place_bracketed p w host f n out h

  named_read :
      (listen : Bool) (name : WString) (out : FacadeEndpoint)
      → is_empty name ≡ false
      → last_kept p.is_space name ≡ true
      → (parse_endpoint p (some (codes "pipe://" ++ name)) listen out
          ≡ ok (record out { kind = pipe; name = name; host = []; num = 0; family = ipv4 }))
        × (parse_endpoint p (some (codes "dmx://" ++ name)) listen out
            ≡ ok (record out { kind = dmx; name = name; host = []; num = 0; family = ipv4 }))
  unfolding has
  named_read listen [] out f k = cc
  named_read listen (d ∷ name) out f k = (
    parse_spelled p w listen b'p' (codes "ipe") d name out refl
          (w.graph_kept b'p' (omega arith) (omega arith)) k
        ∙ (named_target p w listen (d ∷ name) out f).0,
    parse_spelled p w listen b'd' (codes "mx") d name out refl
          (w.graph_kept b'd' (omega arith) (omega arith)) k
        ∙ (named_target p w listen (d ∷ name) out f).1,
  )

  serial_read :
      (listen : Bool) (n : ℕ) (out : FacadeEndpoint)
      → 1 ≤ n
      → n ≤ com_port_max
      → parse_endpoint p (some (codes "serial://COM" ++ decimal n)) listen out
        ≡ ok (record out { kind = serial; num = n; family = ipv4; host = []; name = [] })
  unfolding has
  serial_read listen n out low high =
      parse_spelled p w listen b's' (codes "erial") b'C' (codes "OM" ++ decimal n) out refl
        (w.graph_kept b's' (omega arith) (omega arith))
        (com_kept (decimal n) (decimal-ne-nil n) (decimal_digits n))
      ∙ serial_target p w listen n out low high
    where
      com_kept :
          (s : WString)
          → is_empty s ≡ false
          → all is_digit s ≡ true
          → last_kept p.is_space (codes "COM" ++ s) ≡ true
      com_kept [] f h = cc
      com_kept (c ∷ s) f h = digits-kept p w (c ∷ s) h

  format_kind-reads :
      (listen : Bool) (k : Transport) (e out : FacadeEndpoint)
      → e.kind ≡ k
      → CanonicalAs p listen k e
      → parse_endpoint p (some (format_kind k e)) listen out
        ≡ ok (record e { derived = out.derived })
  unfolding format_kind has
  format_kind-reads true tcp e out q h =
      ground (arith, listen_read e.family e.num out h.port_low h.port_high)
  format_kind-reads false tcp e out q h = elim h.host_fits [
    | inl b ↦
        rw b.colon
          (bracketed_read e.host e.family e.num out h.port_low h.port_high b ∙ ground arith)
    | inr b ↦
        rw b.no_colon (plain_read e.host e.family e.num out h.port_low h.port_high b ∙ ground arith)
  ]
  format_kind-reads listen pipe e out q h =
      (named_read listen e.name out h.filled h.kept).0 ∙ ground arith
  format_kind-reads listen dmx e out q h =
      (named_read listen e.name out h.filled h.kept).1 ∙ ground arith
  format_kind-reads listen serial e out q h =
      serial_read listen e.num out h.port_low h.port_high ∙ ground arith

  -- The spelling of a canonical endpoint parses to that endpoint, whatever the caller's structure
  -- held before, but for the derived flag, which a parse leaves as it was.
  pub format-Canonical :
      (listen : Bool) (e out : FacadeEndpoint)
      → Canonical p listen e
      → parse_endpoint p (some (format e)) listen out ≡ ok (record e { derived = out.derived })
  format-Canonical listen e out h = format_kind-reads listen e.kind e out refl h

-- The derived flag is no part of an endpoint's identity: neither Format nor the rules read it.
pub format_kind-derived :
    (k : Transport) (e : FacadeEndpoint) (b : Bool)
    → format_kind k (record e { derived = b }) ≡ format_kind k e
unfolding format_kind
format_kind-derived tcp e b = refl
format_kind-derived _ e b = refl

pub CanonicalAs-derived :
    (p : Platform) (listen : Bool) (k : Transport) (e : FacadeEndpoint) (b : Bool)
    → CanonicalAs p listen k e
    → CanonicalAs p listen k (record e { derived = b })
CanonicalAs-derived p true tcp e b h = ground arith
CanonicalAs-derived p false tcp e b h = ground arith
CanonicalAs-derived p listen pipe e b h = ground arith
CanonicalAs-derived p listen dmx e b h = ground arith
CanonicalAs-derived p listen serial e b h = ground arith

-- What any accepted text parses to is spelled by Format in a way that parses, in the same
-- direction, to the same endpoint again, on a platform that behaves as documented; the derived
-- flag is the one that the caller's structure held.
pub parse-format :
    (p : Platform) (w : IsPlatform p) (s : WString) (listen : Bool) (before out : FacadeEndpoint)
    {e : FacadeEndpoint}
    → parse_endpoint p (some s) listen before ≡ ok e
    → parse_endpoint p (some (format e)) listen out ≡ ok (record e { derived = out.derived })
parse-format p w s listen before out {e} h =
    format-Canonical p w listen e out (parse_endpoint-Canonical p w s listen before h)
