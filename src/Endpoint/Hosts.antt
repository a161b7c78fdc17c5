-- ===== src/Endpoint/Hosts.antt =====
-- The host of a tcp endpoint: what the split of "host:port" and "[host]:port" accepts, and what
-- it answers on the spelling that Format writes.
use target_facade.Base.{
  suc, ◌-◌, ◌≡◌, ◌⊎◌, inl, inr, refl, sym, true, false, ◌&&◌, [], ◌∷◌, ◌++◌, some, arith,
  Bool-cases, Option-cases,
}
use target_facade.Base.Lists.{length, take, take-append, drop_past-append, drop_past_two-append}
use target_facade.Base.Text.{WString, codes, equal, is_empty, has, find, reverse_find}
use target_facade.Base.TextLaws.{
  find-append, find-some_split, reverse_find-append, reverse_find-some_split,
}
use target_facade.Status.{ok}
use target_facade.Platform.{Platform}
use target_facade.Endpoint.{
  Family, ipv6, dual, HostPort, split_bracketed, split_plain, split_host, is_ipv6_literal, is_ipv6,
}

-- A dial host that stands in brackets.
pub record IsBracketed (p : Platform) (host : WString) (family : Family) : Type 0 where
  pub literal : is_ipv6_literal p host true ≡ true
  pub colon : has b':' host ≡ true
  pub no_close : has b']' host ≡ false
  pub not_v4 : (family ≡ ipv6) ⊎ (family ≡ dual)
  pub no_quad : (is_ipv6 family && p.inet_pton4 host) ≡ false

-- A dial host that stands bare.
pub record IsPlain (p : Platform) (host : WString) (family : Family) : Type 0 where
  pub filled : is_empty host ≡ false
  pub no_colon : has b':' host ≡ false
  pub no_close : has b']' host ≡ false
  pub no_open : equal (take 1 host) (codes "[") ≡ false
  pub no_quad : (is_ipv6 family && p.inet_pton4 host) ≡ false

take-one-append :
    (host rest : WString) → is_empty host ≡ false → take 1 (host ++ rest) ≡ take 1 host
take-one-append [] rest h = cc
take-one-append (c ∷ host) rest h = refl

split_plain-append :
    (host port : WString)
    → has b':' host ≡ false
    → has b']' host ≡ false
    → has b':' port ≡ false
    → split_plain (host ++ b':' ∷ port)
      ≡ ok (record { host = host; port = port; bracketed = false })
unfolding split_plain
split_plain-append host port c b d = ground (
  arith,
  reverse_find-append b':' host port d,
  take-append host (b':' ∷ port),
  drop_past-append host b':' port,
)

pub split_host-plain :
    (host port : WString)
    → is_empty host ≡ false
    → has b':' host ≡ false
    → has b']' host ≡ false
    → equal (take 1 host) (codes "[") ≡ false
    → has b':' port ≡ false
    → split_host (host ++ b':' ∷ port) ≡ ok (record { host = host; port = port; bracketed = false })
unfolding split_host
split_host-plain host port f c b o d =
    rw (take-one-append host (b':' ∷ port) f) (rw o (split_plain-append host port c b d))

find_close :
    (host rest : WString)
    → has b']' host ≡ false
    → find b']' (b'[' ∷ (host ++ b']' ∷ rest)) ≡ some (suc (length host))
unfolding find
find_close host rest b = rw (find-append b']' host rest b)

split_bracketed-append :
    (host port : WString)
    → is_empty host ≡ false
    → has b']' host ≡ false
    → split_bracketed (b'[' ∷ (host ++ b']' ∷ b':' ∷ port))
      ≡ ok (record { host = host; port = port; bracketed = true })
unfolding split_bracketed equal
split_bracketed-append host port f b = ground (
  arith,
  find_close host (b':' ∷ port) b,
  drop_past-append host b']' (b':' ∷ port),
  drop_past_two-append host b']' b':' port,
  take-append host (b']' ∷ b':' ∷ port),
)

pub split_host-bracketed :
    (host port : WString)
    → is_empty host ≡ false
    → has b']' host ≡ false
    → split_host (b'[' ∷ (host ++ b']' ∷ b':' ∷ port))
      ≡ ok (record { host = host; port = port; bracketed = true })
unfolding split_host equal
split_host-bracketed host port f b = split_bracketed-append host port f b

split_bracketed-inv :
    (t : WString) {at : HostPort}
    → split_bracketed (b'[' ∷ t) ≡ ok at
    → (at.bracketed ≡ true) × (is_empty at.host ≡ false) × (has b']' at.host ≡ false)
unfolding split_bracketed find
split_bracketed-inv t h = elim (Option-cases (find b']' t)) [
  | inl m ↦ ground arith
  | inr (k, m) ↦
      let index : suc k - 1 ≡ k = omega arith in
      ground (arith, (find-some_split b']' t k m).1, index)
]

split_plain-inv :
    (target : WString) {at : HostPort}
    → split_plain target ≡ ok at
    → (at.bracketed ≡ false)
      × (has b':' at.host ≡ false)
      × (has b']' at.host ≡ false)
      × (target ≡ at.host ++ b':' ∷ at.port)
unfolding split_plain
split_plain-inv target h = elim (Option-cases (reverse_find b':' target)) [
  | inl m ↦ ground arith
  | inr (k, m) ↦ ground (arith, (reverse_find-some_split b':' target k m).0)
]

-- What an accepted "host:port" or "[host]:port" tells of its host.
pub record Splits (at : HostPort) : Type 0 where
  pub no_close : has b']' at.host ≡ false
  pub filled : at.bracketed ≡ true → is_empty at.host ≡ false
  pub no_colon : at.bracketed ≡ false → has b':' at.host ≡ false
  pub no_open :
      at.bracketed ≡ false → is_empty at.host ≡ false → equal (take 1 at.host) (codes "[") ≡ false

plain-Splits :
    (target : WString) {at : HostPort}
    → equal (take 1 target) (codes "[") ≡ false
    → split_plain target ≡ ok at
    → Splits at
plain-Splits target {at} o h =
    let (b, c, d, e) = split_plain-inv target h in
    record {
      no_close = d;
      filled = λ t. cc;
      no_colon = λ _. c;
      no_open = λ _ f. rw (sym (take-one-append at.host (b':' ∷ at.port) f)) (rw (sym e) o);
    }

pub split_host-Splits : (target : WString) {at : HostPort} → split_host target ≡ ok at → Splits at
unfolding split_host equal
split_host-Splits [] h = plain-Splits [] refl h
split_host-Splits (c ∷ t) {at} h = elim (Bool-cases (equal (c ∷ []) (codes "["))) [
  | inl e ↦
      let open_first : c ≡ b'[' = ground arith in
      let inner : split_bracketed (b'[' ∷ t) ≡ ok at = rw (sym open_first) (rw e at h) in
      let (b, f, d) = split_bracketed-inv t inner in
      record { no_close = d; filled = λ _. f; no_colon = λ u. cc; no_open = λ u _. cc }
  | inr e ↦ plain-Splits (c ∷ t) e (rw e at h)
]
