-- ===== src/Endpoint.antt =====
-- src/FacadeEndpoint.h, src/FacadeEndpoint.cpp: endpoints, their spelling and their parse.
pub mod Scan
pub mod Hosts
pub mod Schemes
pub mod Canonical
pub mod RoundTrip
pub mod Peer
pub mod Map
use target_facade.Base.{
  ℕ, zero, suc, ◌+◌, ◌-◌, Bool, true, false, not, ◌&&◌, ◌||◌, List, [], ◌∷◌, ◌++◌, Option, none,
  some, ◌==◌, ltb, if◌then◌else◌, map, is_some,
}
use target_facade.Base.Lists.{length, take, drop, all}
use target_facade.Base.Text.{WString, codes, equal, is_empty, has, find, reverse_find, trim}
use target_facade.Base.Decimal.{decimal}
use target_facade.Status.{HResult, e_endpoint, Result, ok, err, ◌>>=◌, ◌>>◌, refuse}
use target_facade.Platform.{Platform}
use Scan.{scan_uint}

pub data Transport : Type 0 where
  tcp pipe dmx serial : Transport

pub data Family : Type 0 where
  ipv4 ipv6 dual : Family

pub record FacadeEndpoint : Type 0 where
  pub kind : Transport
  pub host : WString
  pub name : WString
  pub num : ℕ
  pub family : Family
  pub derived : Bool

-- The constructor of FacadeEndpoint.
abbrev pub blank_endpoint : FacadeEndpoint
blank_endpoint = record {
  kind = tcp;
  host = [];
  name = [];
  num = 0;
  family = ipv4;
  derived = false;
}

abbrev pub port_max : ℕ
port_max = 65535

abbrev pub com_port_max : ℕ
com_port_max = 255

-- FacadeEndpoint::Format

unfoldable pub family_scheme : Family → WString
family_scheme ipv6 = codes "tcp6"
family_scheme dual = codes "tcp46"
family_scheme ipv4 = codes "tcp"

unfoldable pub format_kind : Transport → FacadeEndpoint → WString
unfolding family_scheme
format_kind tcp e =
    if has b':' e.host
    then family_scheme e.family ++ (codes "://[" ++ (e.host ++ (codes "]:" ++ decimal e.num)))
    else family_scheme e.family ++ (codes "://" ++ (e.host ++ (codes ":" ++ decimal e.num)))
format_kind pipe e = codes "pipe://" ++ e.name
format_kind dmx e = codes "dmx://" ++ e.name
format_kind serial e = codes "serial://COM" ++ decimal e.num

abbrev pub format : FacadeEndpoint → WString
format e = format_kind e.kind e

-- `csToken.CompareNoCase (lpszWanted) == 0`
unfoldable pub is_scheme : Platform → WString → WString → Bool
is_scheme p token wanted = equal (map p.to_lower token) (map p.to_lower wanted)

unfoldable pub is_any_host4 : WString → Bool
is_any_host4 host = is_empty host || equal host (codes "*") || equal host (codes "0.0.0.0")

unfoldable pub is_ipv6_literal : Platform → WString → Bool → Bool
is_ipv6_literal p host allow_zone = elim (find b'%' host) [
  | none ↦ is_some (p.inet_pton6 host)
  | some zone ↦
      if not allow_zone || zone == length host - 1
      then false
      else is_some (p.inet_pton6 (take zone host))
]

unfoldable pub is_ipv6_any : Platform → WString → Bool
is_ipv6_any p host = elim (p.inet_pton6 host) [
  | none ↦ false
  | some bytes ↦ all (λ b. b == 0) bytes
]

-- The scheme tests of a tcp endpoint.
pub record TcpScheme : Type 0 where
  pub auto : Bool
  pub v4 : Bool
  pub v6 : Bool
  pub v46 : Bool

unfoldable pub tcp_scheme : Platform → WString → TcpScheme
tcp_scheme p scheme = record {
  auto = is_scheme p scheme (codes "tcp");
  v4 = is_scheme p scheme (codes "tcp4") || is_scheme p scheme (codes "ipv4");
  v6 = is_scheme p scheme (codes "tcp6") || is_scheme p scheme (codes "ipv6");
  v46 = is_scheme p scheme (codes "tcp46");
}

pub record HostPort : Type 0 where
  pub host : WString
  pub port : WString
  pub bracketed : Bool

-- "[host]:port"
unfoldable pub split_bracketed : WString → Result HostPort
split_bracketed target = elim (find b']' target) [
  | none ↦ err e_endpoint
  | some close ↦
      if not (equal (take 1 (drop (suc close) target)) (codes ":"))
      then err e_endpoint
      else if is_empty (take (close - 1) (drop 1 target))
      then err e_endpoint
      else ok (record {
        host = take (close - 1) (drop 1 target);
        port = drop (suc (suc close)) target;
        bracketed = true;
      })
]

-- "host:port"
unfoldable pub split_plain : WString → Result HostPort
split_plain target = elim (reverse_find b':' target) [
  | none ↦ err e_endpoint
  | some sep ↦
      if has b':' (take sep target) || has b']' (take sep target)
      then err e_endpoint
      else ok (record { host = take sep target; port = drop (suc sep) target; bracketed = false })
]

unfoldable pub split_host : WString → Result HostPort
split_host target =
    if equal (take 1 target) (codes "[") then split_bracketed target else split_plain target

-- A decimal number from 1 to `top`.
unfoldable pub ranged : ℕ → WString → Result ℕ
ranged top digits = elim (scan_uint (some digits)) [
  | none ↦ err e_endpoint
  | some n ↦ if ltb n 1 || ltb top n then err e_endpoint else ok n
]

-- The host rule of a listen: the family to open in.
unfoldable pub listen_family : Platform → TcpScheme → HostPort → Family → Result Family
listen_family p scheme at family =
    if at.bracketed
    then (if not (is_ipv6_any p at.host)
        then err e_endpoint
        else ok (if scheme.auto then dual else family))
    else if equal at.host (codes "0.0.0.0")
    then (if not scheme.auto && not scheme.v4 then err e_endpoint else ok family)
    else if not (is_any_host4 at.host)
    then err e_endpoint
    else ok family

abbrev pub is_ipv6 : Family → Bool
is_ipv6 ipv6 = true
is_ipv6 _ = false

-- The host rule of a dial.
unfoldable pub dial_family : Platform → TcpScheme → HostPort → Family → Result Family
dial_family p scheme at family =
    let chosen = if at.bracketed && scheme.auto then ipv6 else family in
    if is_empty at.host
    then err e_endpoint
    else if is_ipv6 chosen && p.inet_pton4 at.host
    then err e_endpoint
    else ok chosen

abbrev pub named_family : TcpScheme → Family
named_family scheme = if scheme.v6 then ipv6 else if scheme.v46 then dual else ipv4

-- Behind the split and the port: the bracket rules, then the host rule of the direction.
unfoldable pub place_tcp :
    Platform → Bool → TcpScheme → HostPort → ℕ → FacadeEndpoint → Result FacadeEndpoint
place_tcp p listen scheme at port out = do
  refuse (at.bracketed && not (is_ipv6_literal p at.host (not listen))) e_endpoint
  refuse (scheme.v4 && at.bracketed) e_endpoint
  family ←
      if listen
      then listen_family p scheme at (named_family scheme)
      else dial_family p scheme at (named_family scheme)
  ok (record out {
    kind = tcp;
    family = family;
    host = if listen then [] else at.host;
    name = [];
    num = port;
  })

unfoldable pub parse_tcp :
    Platform → Bool → TcpScheme → WString → FacadeEndpoint → Result FacadeEndpoint
parse_tcp p listen scheme target out = do
  at ← split_host target
  port ← ranged port_max at.port
  place_tcp p listen scheme at port out

unfoldable pub parse_named : Transport → WString → FacadeEndpoint → Result FacadeEndpoint
parse_named kind target out =
    if is_empty target
    then err e_endpoint
    else ok (record out { kind = kind; name = target; host = []; num = 0; family = ipv4 })

unfoldable pub parse_serial : Platform → WString → FacadeEndpoint → Result FacadeEndpoint
parse_serial p target out = do
  port ←
      ranged com_port_max
        (if is_scheme p (take 3 target) (codes "COM") then drop 3 target else target)
  ok (record out { kind = serial; num = port; family = ipv4; host = []; name = [] })

unfoldable pub parse_target :
    Platform → Bool → WString → WString → FacadeEndpoint → Result FacadeEndpoint
parse_target p listen scheme target out =
    let flags = tcp_scheme p scheme in
    if flags.auto || flags.v4 || flags.v6 || flags.v46
    then parse_tcp p listen flags target out
    else if is_scheme p scheme (codes "pipe") || is_scheme p scheme (codes "dmx")
    then parse_named (if is_scheme p scheme (codes "pipe") then pipe else dmx) target out
    else if is_scheme p scheme (codes "serial") || is_scheme p scheme (codes "com")
    then parse_serial p target out
    else err e_endpoint

unfoldable pub strip_slashes : WString → WString
strip_slashes target = if equal (take 2 target) (codes "//") then drop 2 target else target

-- Behind the trim: the scheme ends at the first colon, which is not the first unit.
unfoldable pub parse_trimmed : Platform → Bool → WString → FacadeEndpoint → Result FacadeEndpoint
parse_trimmed p listen s out = elim (find b':' s) [
  | none ↦ err e_endpoint
  | some colon ↦
      if colon == 0
      then err e_endpoint
      else parse_target p listen (take colon s) (strip_slashes (drop (suc colon) s)) out
]

-- ParseFacadeEndpoint. `out` is what the caller's structure holds before the call.
unfoldable pub parse_endpoint :
    Platform → Option WString → Bool → FacadeEndpoint → Result FacadeEndpoint
parse_endpoint p none listen out = err e_endpoint
parse_endpoint p (some s) listen out =
    if is_empty s then err e_endpoint else parse_trimmed p listen (trim p.is_space s) out
