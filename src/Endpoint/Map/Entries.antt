-- ===== src/Endpoint/Map/Entries.antt =====
-- What the entries of an accepted endpoint map are.
use target_facade.Base.{
  ℕ, zero, suc, ◌+◌, ◌%◌, ◌^◌, ◌≡◌, inl, inr, refl, sym, ◌∙◌, false, ◌||◌, List, [], ◌∷◌, Option,
  none, some, arith, Option-cases, Bool-cases,
}
use mathlib.Core.Path.{subst}
use target_facade.Base.Lists.{take, drop}
use target_facade.Base.Text.{WString, equal, equal_iff, is_empty, find, trim}
use target_facade.Base.SortedMap.{
  lookup, insert, lookup-insert, IsSorted, insert-IsSorted, erase, lookup-erase, erase-IsSorted,
}
use target_facade.Status.{ok, Result-cases}
use target_facade.Platform.{Platform, IsPlatform}
use target_facade.Endpoint.{FacadeEndpoint, blank_endpoint, format, parse_endpoint}
use target_facade.Endpoint.Canonical.{Canonical, parse_endpoint-Canonical}
use target_facade.Endpoint.RoundTrip.{format-Canonical, format_kind-derived, CanonicalAs-derived}
use target_facade.Endpoint.Peer.{is_swapped_peer_argument}
use target_facade.Endpoint.Map.{
  is_serial, EndpointMap, is_comment, add_entry, read_entry, split_entry, read_line, parsed,
  read_lines, split_lines, parse_endpoint_map,
}

-- One entry of a deployment map: an address, and the canonical spelling of a dial endpoint.
pub record IsEntry (p : Platform) (addr value : WString) : Type 0 where
  pub endpoint : FacadeEndpoint
  pub filled : is_empty addr ≡ false
  pub no_endpoint : is_swapped_peer_argument (some addr) ≡ false
  pub spelled : value ≡ format endpoint
  pub canonical : Canonical p false endpoint
  pub no_serial : is_serial endpoint.kind ≡ false

-- A map in key order, each key once, with an entry under each key.
pub record IsDeployment (p : Platform) (m : EndpointMap) : Type 0 where
  pub sorted : IsSorted m
  pub entry : (addr value : WString) → lookup addr m ≡ some value → IsEntry p addr value

pub IsDeployment-empty : (p : Platform) → IsDeployment p []
unfolding lookup
IsDeployment-empty p = record { sorted = tt; entry = λ addr value e. cc }

module _ (p : Platform) where
  pub insert-IsDeployment :
      (addr value : WString) (m : EndpointMap)
      → IsDeployment p m
      → IsEntry p addr value
      → IsDeployment p (insert addr value m)
  insert-IsDeployment addr value m d new = record {
    sorted = insert-IsSorted addr value m d.sorted;
    entry = λ a v e. elim (Bool-cases (equal addr a)) [
      | inl same ↦
          let found : value ≡ v = ground (arith, lookup-insert addr a value m) in
          subst (λ b. IsEntry p b v) ((equal_iff addr a).0 same) (subst (IsEntry p addr) found new)
      | inr other ↦ d.entry a v (ground (arith, lookup-insert addr a value m))
    ];
  }

  pub erase-IsDeployment :
      (addr : WString) (m : EndpointMap) → IsDeployment p m → IsDeployment p (erase addr m)
  erase-IsDeployment addr m d = record {
    sorted = erase-IsSorted addr m d.sorted;
    entry = λ a v e. d.entry a v (ground (arith, lookup-erase addr a m));
  }

  pub spelled-IsEntry :
      (w : IsPlatform p) (addr ep : WString) {e : FacadeEndpoint}
      → (is_empty addr || is_swapped_peer_argument (some addr)) ≡ false
      → parse_endpoint p (some ep) false blank_endpoint ≡ ok e
      → is_serial e.kind ≡ false
      → IsEntry p addr (format e)
  spelled-IsEntry w addr ep {e} guards read other = record {
    endpoint = e;
    filled = ground arith;
    no_endpoint = ground arith;
    spelled = refl;
    canonical = parse_endpoint-Canonical p w ep false blank_endpoint read;
    no_serial = other;
  }

  read_entry-IsDeployment :
      (w : IsPlatform p) (m : EndpointMap) (addr ep : WString) {next : EndpointMap}
      → IsDeployment p m
      → read_entry p m addr ep ≡ some next
      → IsDeployment p next
  unfolding read_entry add_entry
  read_entry-IsDeployment w m addr ep d h =
      elim (Bool-cases (is_empty addr || is_swapped_peer_argument (some addr))) [
        | inl g ↦ ground arith
        | inr g ↦ elim (Result-cases (parse_endpoint p (some ep) false blank_endpoint)) [
          | inl (e, r) ↦ elim (Bool-cases (is_serial e.kind)) [
            | inl k ↦ ground arith
            | inr k ↦
                subst (IsDeployment p) (ground arith)
                  (insert-IsDeployment addr (format e) m d (spelled-IsEntry w addr ep g r k))
          ]
          | inr (c, r) ↦ ground arith
        ]
      ]

  split_entry-IsDeployment :
      (w : IsPlatform p) (m : EndpointMap) (line : WString) (at : Option ℕ) {next : EndpointMap}
      → IsDeployment p m
      → split_entry p m line at ≡ some next
      → IsDeployment p next
  unfolding split_entry
  split_entry-IsDeployment w m line none d h = absurd (cc)
  split_entry-IsDeployment w m line (some zero) d h = absurd (cc)
  split_entry-IsDeployment w m line (some (suc n)) d h =
      read_entry-IsDeployment w m (trim p.is_space (take (suc n) line))
        (trim p.is_space (drop (suc (suc n)) line)) d h

  read_line-IsDeployment :
      (w : IsPlatform p) (m : EndpointMap) (raw : WString) {next : EndpointMap}
      → IsDeployment p m
      → read_line p m raw ≡ some next
      → IsDeployment p next
  unfolding read_line
  read_line-IsDeployment w m raw d h =
      let line = trim p.is_space raw in
      elim (Bool-cases (is_comment line)) [
        | inl c ↦ subst (IsDeployment p) (ground arith) d
        | inr c ↦ split_entry-IsDeployment w m line (find b'=' line) d (ground arith)
      ]

  read_lines-IsDeployment :
      (w : IsPlatform p) (n : ℕ) (m : EndpointMap) (lines : List WString) {final : EndpointMap}
      → IsDeployment p m
      → read_lines p n m lines ≡ parsed final
      → IsDeployment p final
  unfolding read_lines
  read_lines-IsDeployment w n m [] d h = subst (IsDeployment p) (ground arith) d
  read_lines-IsDeployment w n m (l ∷ ls) {final} d h = elim (Option-cases (read_line p m l)) [
    | inl r ↦ absurd (ground arith)
    | inr (next, r) ↦
        read_lines-IsDeployment w ((n + 1) % 2 ^ 32) next ls {final = final}
          (read_line-IsDeployment w m l d r) (ground arith)
  ]

  -- Every accepted text gives a map whose keys are addresses in order, each once, and whose values
  -- are canonical spellings of dial endpoints other than serial ones.
  pub parse_endpoint_map-IsDeployment :
      (w : IsPlatform p) (text : Option WString) {m : EndpointMap}
      → parse_endpoint_map p text ≡ parsed m
      → IsDeployment p m
  unfolding parse_endpoint_map
  parse_endpoint_map-IsDeployment w none h =
      subst (IsDeployment p) (ground arith) (IsDeployment-empty p)
  parse_endpoint_map-IsDeployment w (some []) h =
      subst (IsDeployment p) (ground arith) (IsDeployment-empty p)
  parse_endpoint_map-IsDeployment w (some (c ∷ text)) h =
      read_lines-IsDeployment w 0 [] (split_lines (c ∷ text)) (IsDeployment-empty p) h

  -- What stands under a key of such a map parses as a dial, to an endpoint that is no serial one.
  pub IsDeployment-parses :
      (w : IsPlatform p) (m : EndpointMap) (addr value : WString) (out : FacadeEndpoint)
      → IsDeployment p m
      → lookup addr m ≡ some value
      → (e : FacadeEndpoint) × (parse_endpoint p (some value) false out ≡ ok e)
        × (format e ≡ value)
        × Canonical p false e
        × (is_serial e.kind ≡ false)
  IsDeployment-parses w m addr value out d h =
      let i = d.entry addr value h in
      (
        record i.endpoint { derived = out.derived },
        subst
            (λ v.
              parse_endpoint p (some v) false out
              ≡ ok (record i.endpoint { derived = out.derived }))
            (sym i.spelled) (format-Canonical p w false i.endpoint out i.canonical),
        format_kind-derived i.endpoint.kind i.endpoint out.derived ∙ sym i.spelled,
        CanonicalAs-derived p false i.endpoint.kind i.endpoint out.derived i.canonical,
        i.no_serial,
      )
