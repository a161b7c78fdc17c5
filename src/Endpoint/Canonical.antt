-- ===== src/Endpoint/Canonical.antt =====
-- The endpoints that a parse can yield.
use target_facade.Base.{
  ℕ, suc, ◌≤◌, ◌≡◌, ◌⊎◌, inl, inr, refl, Bool, true, false, not, ◌&&◌, ◌||◌, [], ◌∷◌, some, arith,
  if◌then◌else◌, Bool-cases, Option-cases,
}
use mathlib.Core.Path.{subst}
use target_facade.Base.Lists.{take, drop}
use target_facade.Base.Text.{WString, codes, is_empty, has, find, trim}
use target_facade.Base.TextLaws.{
  has-append, find-some_split, last_kept, last_kept-trim, last_kept-drop,
}
use target_facade.Status.{Result, ok, err, ◌>>=◌, bind-eq-ok}
use target_facade.Platform.{Platform, IsPlatform}
use target_facade.Endpoint.Hosts.{IsBracketed, IsPlain, Splits, split_host-Splits}
use target_facade.Endpoint.{
  Transport, tcp, pipe, dmx, serial, Family, ipv4, FacadeEndpoint, HostPort, TcpScheme, port_max,
  com_port_max, is_ipv6_literal, split_host, ranged, place_tcp, dial_family, named_family,
  parse_tcp, parse_named, parse_serial, parse_target, tcp_scheme, strip_slashes, parse_trimmed,
  parse_endpoint, is_scheme,
}

abbrev pub HostFits : Platform → Bool → WString → Family → Type 0
HostFits p true host family = host ≡ []
HostFits p false host family = IsBracketed p host family ⊎ IsPlain p host family

pub record IsTcp (p : Platform) (listen : Bool) (e : FacadeEndpoint) : Type 0 where
  pub port_low : 1 ≤ e.num
  pub port_high : e.num ≤ port_max
  pub no_name : e.name ≡ []
  pub host_fits : HostFits p listen e.host e.family

pub record IsNamed (p : Platform) (e : FacadeEndpoint) : Type 0 where
  pub filled : is_empty e.name ≡ false
  pub kept : last_kept p.is_space e.name ≡ true
  pub no_host : e.host ≡ []
  pub no_num : e.num ≡ 0
  pub no_family : e.family ≡ ipv4

pub record IsSerial (e : FacadeEndpoint) : Type 0 where
  pub port_low : 1 ≤ e.num
  pub port_high : e.num ≤ com_port_max
  pub no_name : e.name ≡ []
  pub no_host : e.host ≡ []
  pub no_family : e.family ≡ ipv4

abbrev pub CanonicalAs : Platform → Bool → Transport → FacadeEndpoint → Type 0
CanonicalAs p listen tcp e = IsTcp p listen e
CanonicalAs p listen pipe e = IsNamed p e
CanonicalAs p listen dmx e = IsNamed p e
CanonicalAs p listen serial e = IsSerial e

abbrev pub Canonical : Platform → Bool → FacadeEndpoint → Type 0
Canonical p listen e = CanonicalAs p listen e.kind e

pub ranged_bounds : (top : ℕ) (s : WString) {n : ℕ} → ranged top s ≡ ok n → (1 ≤ n) × (n ≤ top)
unfolding ranged
ranged_bounds top s h = ground arith

-- what the parse yields is canonical
abbrev Yields : Platform → Bool → Result FacadeEndpoint → Type 0
Yields p listen (ok e) = Canonical p listen e
Yields p listen (err c) = Unit

module _ (p : Platform) (w : IsPlatform p) where
  literal-colon : (host : WString) → is_ipv6_literal p host true ≡ true → has b':' host ≡ true
  unfolding is_ipv6_literal
  literal-colon host h = elim (Option-cases (find b'%' host)) [
    | inl e ↦ elim (Option-cases (p.inet_pton6 host)) [
      | inl f ↦ ground arith
      | inr (bytes, f) ↦ w.pton6_colon host bytes f
    ]
    | inr (zone, e) ↦ elim (Option-cases (p.inet_pton6 (take zone host))) [
      | inl f ↦ ground arith
      | inr (bytes, f) ↦ ground (
        arith,
        w.pton6_colon (take zone host) bytes f,
        has-append b':' (take zone host) (b'%' ∷ drop (suc zone) host),
        (find-some_split b'%' host zone e).0,
      )
    ]
  ]

  dial_family-fits :
      (scheme : TcpScheme) (at : HostPort) {f : Family}
      → Splits at
      → (at.bracketed && not (is_ipv6_literal p at.host true)) ≡ false
      → (scheme.v4 && at.bracketed) ≡ false
      → (scheme.auto || scheme.v4 || scheme.v6 || scheme.v46) ≡ true
      → dial_family p scheme at (named_family scheme) ≡ ok f
      → IsBracketed p at.host f ⊎ IsPlain p at.host f
  unfolding dial_family
  dial_family-fits scheme at s b v any h = elim (Bool-cases at.bracketed) [
    | inl e ↦ inl (record {
      literal = ground arith;
      colon = literal-colon at.host (ground arith);
      no_close = s.no_close;
      not_v4 = ground arith;
      no_quad = ground arith;
    })
    | inr e ↦ inr (record {
      filled = ground arith;
      no_colon = s.no_colon e;
      no_close = s.no_close;
      no_open = s.no_open e (ground arith);
      no_quad = ground arith;
    })
  ]

  -- the last step of a dial, on a family that fits or an error
  dial-Yields :
      (at : HostPort) (port : ℕ) (out : FacadeEndpoint) (r : Result Family)
      → 1 ≤ port
      → port ≤ port_max
      → ((f : Family) → r ≡ ok f → IsBracketed p at.host f ⊎ IsPlain p at.host f)
      → Yields p false (
          r >>= λ family.
          ok (record out { kind = tcp; family = family; host = at.host; name = []; num = port }))
  dial-Yields at port out (err c) low high fits = tt
  dial-Yields at port out (ok f) low high fits = record {
    port_low = low;
    port_high = high;
    no_name = refl;
    host_fits = fits f refl;
  }

  place_tcp-Yields :
      (listen : Bool) (scheme : TcpScheme) (at : HostPort) (port : ℕ) (out : FacadeEndpoint)
      → Splits at
      → (1 ≤ port) × (port ≤ port_max)
      → (scheme.auto || scheme.v4 || scheme.v6 || scheme.v46) ≡ true
      → Yields p listen (place_tcp p listen scheme at port out)
  unfolding place_tcp
  place_tcp-Yields true scheme at port out s range any = ground arith
  place_tcp-Yields false scheme at port out s range any =
      elim (Bool-cases (at.bracketed && not (is_ipv6_literal p at.host true))) [
        | inl b ↦ rw b tt
        | inr b ↦ elim (Bool-cases (scheme.v4 && at.bracketed)) [
          | inl v ↦ rw (b, v) tt
          | inr v ↦
              rw (b, v)
                (dial-Yields at port out (dial_family p scheme at (named_family scheme)) range.0
                  range.1 (λ f h. dial_family-fits scheme at s b v any h))
        ]
      ]

  parse_tcp-Canonical :
      (listen : Bool) (scheme : TcpScheme) (target : WString) (out : FacadeEndpoint)
      {e : FacadeEndpoint}
      → (scheme.auto || scheme.v4 || scheme.v6 || scheme.v46) ≡ true
      → parse_tcp p listen scheme target out ≡ ok e
      → Canonical p listen e
  unfolding parse_tcp
  parse_tcp-Canonical listen scheme target out any h =
      let (at, split, h') =
        bind-eq-ok (split_host target)
          (λ at. ranged port_max at.port >>= λ port. place_tcp p listen scheme at port out) h in
      let (port, range, placed) =
        bind-eq-ok (ranged port_max at.port) (λ port. place_tcp p listen scheme at port out) h' in
      rw placed at (
        place_tcp-Yields listen scheme at port out (split_host-Splits target split)
          (ranged_bounds port_max at.port range) any)

  serial_port :
      (listen : Bool) (port : ℕ) (out : FacadeEndpoint)
      → (1 ≤ port) × (port ≤ com_port_max)
      → Canonical p listen
          (record out { kind = serial; num = port; family = ipv4; host = []; name = [] })
  serial_port listen port out range = record {
    port_low = range.0;
    port_high = range.1;
    no_name = refl;
    no_host = refl;
    no_family = refl;
  }

  parse_serial-Canonical :
      (listen : Bool) (target : WString) (out : FacadeEndpoint) {e : FacadeEndpoint}
      → parse_serial p target out ≡ ok e
      → Canonical p listen e
  unfolding parse_serial
  parse_serial-Canonical listen target out h =
      let digits = if is_scheme p (take 3 target) (codes "COM") then drop 3 target else target in
      let (port, range, same) =
        bind-eq-ok (ranged com_port_max digits)
          (λ port.
            ok (record out { kind = serial; num = port; family = ipv4; host = []; name = [] }))
          h in
      subst (Yields p listen) same
        (serial_port listen port out (ranged_bounds com_port_max digits range))

  parse_target-Canonical :
      (listen : Bool) (scheme target : WString) (out : FacadeEndpoint) {e : FacadeEndpoint}
      → last_kept p.is_space target ≡ true
      → parse_target p listen scheme target out ≡ ok e
      → Canonical p listen e
  unfolding parse_target parse_named
  parse_target-Canonical listen scheme target out k h =
      let flags = tcp_scheme p scheme in
      elim (Bool-cases (flags.auto || flags.v4 || flags.v6 || flags.v46)) [
        | inl any ↦ parse_tcp-Canonical listen flags target out any (ground arith)
        | inr other ↦ elim (Bool-cases (is_scheme p scheme (codes "pipe"))) [
          | inl a ↦ ground arith
          | inr a ↦ elim (Bool-cases (is_scheme p scheme (codes "dmx"))) [
            | inl b ↦ ground arith
            | inr b ↦ parse_serial-Canonical listen target out (ground arith)
          ]
        ]
      ]

  strip_slashes-kept :
      (t : WString) → last_kept p.is_space t ≡ true → last_kept p.is_space (strip_slashes t) ≡ true
  unfolding strip_slashes
  strip_slashes-kept t k = ground (arith, last_kept-drop p.is_space 2 t)

  parse_trimmed-Canonical :
      (listen : Bool) (s : WString) (out : FacadeEndpoint) {e : FacadeEndpoint}
      → last_kept p.is_space s ≡ true
      → parse_trimmed p listen s out ≡ ok e
      → Canonical p listen e
  unfolding parse_trimmed
  parse_trimmed-Canonical listen s out k h = elim (Option-cases (find b':' s)) [
    | inl m ↦ ground arith
    | inr (colon, m) ↦
        parse_target-Canonical listen (take colon s) (strip_slashes (drop (suc colon) s)) out
          (strip_slashes-kept (drop (suc colon) s) (last_kept-drop p.is_space (suc colon) s k))
          (ground arith)
  ]

-- Every endpoint that a parse yields is canonical: with tcp, a port from 1 to 65535 and no name, a
-- listen with no host, a dial with a host that stands in brackets exactly when it holds a colon and
-- can be dialled in the family chosen; with a pipe or dmx, a name that is not empty and whose last
-- character is not white space, and no host and no number; with a serial port, a number from 1 to 255
-- and no host and no name.
pub parse_endpoint-Canonical :
    (p : Platform) (w : IsPlatform p) (s : WString) (listen : Bool) (out : FacadeEndpoint)
    {e : FacadeEndpoint}
    → parse_endpoint p (some s) listen out ≡ ok e
    → Canonical p listen e
unfolding parse_endpoint
parse_endpoint-Canonical p w s listen out h =
    parse_trimmed-Canonical p w listen (trim p.is_space s) out (last_kept-trim p.is_space s)
      (ground arith)
