-- ===== src/Hub/ReadSide/Snapshot.antt =====
-- What the rows of a snapshot are: the join of what the hub armed and of who turned up.
use target_facade.Base.{
  ℕ, ◌+◌, ◌*◌, ◌/◌, ◌%◌, ◌<◌, ◌^◌, ◌==◌, ◌≡◌, inl, inr, refl, sym, Bool, true, false, not, ◌||◌,
  is_some, [], ◌∷◌, Option, none, some, arith, Bool-cases,
}
use mathlib.Core.Path.{subst}
use target_facade.Base.Text.{WString, equal, equal_iff}
use target_facade.Base.SortedMap.{Map, lookup, IsSorted, After, After-trans, lookup-After}
use target_facade.Base.SortedMap.Order.{before, before_total}
use target_facade.Endpoint.Peer.{
  Relation, self, descendant, ancestor, unrelated, pattern_peer, classify_peer,
}
use target_facade.Hub.{Hub, ArmedCon, state_of}
use target_facade.Hub.ReadSide.{
  role_flag, up_flag, relation_flag, ConInfo, armed_row, peer_row, both_row, merge_rows,
  snapshot_cons,
}

-- the row that the loop gives a peer, by what each map has for it
unfoldable row_of : WString → WString → Option ArmedCon → Option Bool → Option ConInfo
row_of address peer none none = none
row_of address peer (some a) none = some (armed_row address peer a)
row_of address peer none (some up) = some (peer_row address peer up)
row_of address peer (some a) (some up) = some (both_row address peer a up)

After-merge_rows :
    (address i : WString) (m : Map ArmedCon) (n : Map Bool)
    → After i m
    → After i n
    → After i (merge_rows address m n)
unfolding merge_rows
After-merge_rows address i [] [] a b = tt
After-merge_rows address i ((j, x) ∷ m) [] a b = (a.0, After-merge_rows address i m [] a.1 tt)
After-merge_rows address i [] ((k, up) ∷ n) a b = (b.0, After-merge_rows address i [] n tt b.1)
After-merge_rows address i ((j, x) ∷ m) ((k, up) ∷ n) a b = ground (
  arith,
  After-merge_rows address i m n a.1 b.1,
  After-merge_rows address i m ((k, up) ∷ n) a.1 b,
  After-merge_rows address i ((j, x) ∷ m) n a b.1,
)

merge_rows-IsSorted :
    (address : WString) (m : Map ArmedCon) (n : Map Bool)
    → IsSorted m
    → IsSorted n
    → IsSorted (merge_rows address m n)
unfolding merge_rows
merge_rows-IsSorted address [] [] s t = tt
merge_rows-IsSorted address ((j, x) ∷ m) [] s t =
    (After-merge_rows address j m [] s.0 tt, merge_rows-IsSorted address m [] s.1 tt)
merge_rows-IsSorted address [] ((k, up) ∷ n) s t =
    (After-merge_rows address k [] n tt t.0, merge_rows-IsSorted address [] n tt t.1)
merge_rows-IsSorted address ((j, x) ∷ m) ((k, up) ∷ n) s t = elim (Bool-cases (equal j k)) [
  | inl e ↦
      rw (e, merge_rows)
        (
          After-merge_rows address j m n s.0
              (subst (λ i. After i n) (sym ((equal_iff j k).0 e)) t.0),
          merge_rows-IsSorted address m n s.1 t.1,
        )
  | inr e ↦ elim (Bool-cases (before j k)) [
    | inl b ↦
        rw (e, b, merge_rows)
          (
            After-merge_rows address j m ((k, up) ∷ n) s.0 (b, After-trans j k n b t.0),
            merge_rows-IsSorted address m ((k, up) ∷ n) s.1 t,
          )
    | inr b ↦
        let c = before_total j k e b in
        rw (e, b, merge_rows)
          (
            After-merge_rows address k ((j, x) ∷ m) n (c, After-trans k j m c s.0) t.0,
            merge_rows-IsSorted address ((j, x) ∷ m) n s t.1,
          )
  ]
]

lookup-merge_rows :
    (address peer : WString) (m : Map ArmedCon) (n : Map Bool)
    → IsSorted m
    → IsSorted n
    → lookup peer (merge_rows address m n) ≡ row_of address peer (lookup peer m) (lookup peer n)
unfolding merge_rows lookup row_of
lookup-merge_rows address peer [] [] s t = refl
lookup-merge_rows address peer ((j, x) ∷ m) [] s t =
    ground (arith, lookup-merge_rows address peer m [] s.1 tt, equal_iff j peer)
lookup-merge_rows address peer [] ((k, up) ∷ n) s t =
    ground (arith, lookup-merge_rows address peer [] n tt t.1, equal_iff k peer)
lookup-merge_rows address peer ((j, x) ∷ m) ((k, up) ∷ n) s t = elim (Bool-cases (equal j k)) [
  | inl e ↦ ground (
    arith,
    equal_iff j k,
    equal_iff j peer,
    equal_iff k peer,
    lookup-merge_rows address peer m n s.1 t.1,
  )
  | inr e ↦ elim (Bool-cases (before j k)) [
    | inl b ↦ ground (
      arith,
      equal_iff j peer,
      equal_iff k peer,
      equal_iff j k,
      lookup-After j n (After-trans j k n b t.0),
      lookup-merge_rows address peer m ((k, up) ∷ n) s.1 t,
    )
    | inr b ↦ ground (
      arith,
      equal_iff j peer,
      equal_iff k peer,
      equal_iff j k,
      lookup-After k m (After-trans k j m (before_total j k e b) s.0),
      lookup-merge_rows address peer ((j, x) ∷ m) n s t.1,
    )
  ]
]

-- the bits of P2PF_CON_* by their places: listens, dials, is up, then one for each relation
abbrev pub has_bit : ℕ → ℕ → Bool
has_bit place n = n / 2 ^ place % 2 == 1

abbrev pub is_listener : Option ArmedCon → Bool
is_listener none = false
is_listener (some a) = a.listen

abbrev pub is_dialer : Option ArmedCon → Bool
is_dialer none = false
is_dialer (some a) = not a.listen

abbrev pub armed_at : Option ArmedCon → WString
armed_at none = []
armed_at (some a) = a.endpoint

abbrev pub relation_place : Relation → ℕ
relation_place self = 8
relation_place descendant = 9
relation_place ancestor = 10
relation_place unrelated = 11
relation_place pattern_peer = 12

-- The flags of a row: the role, the state, the relation and no other bit.
pub record IsFlags (listens dials up : Bool) (r : Relation) (n : ℕ) : Type 0 where
  pub listen_bit : has_bit 0 n ≡ listens
  pub dial_bit : has_bit 1 n ≡ dials
  pub up_bit : has_bit 2 n ≡ up
  pub other_bits : n / 8 * 8 ≡ 2 ^ relation_place r

-- A row for a peer that the hub armed or has seen, and none for another.
abbrev pub IsRow : WString → WString → Option ArmedCon → Option Bool → Option ConInfo → Type 0
IsRow address peer a up none = (a ≡ none) × (up ≡ none)
IsRow address peer a up (some row) =
    ((is_some a || is_some up) ≡ true)
    × (row.endpoint ≡ armed_at a)
    × IsFlags (is_listener a) (is_dialer a) (state_of up) (classify_peer (some address) (some peer))
        row.flags

relation_flag-bits :
    (low : ℕ) (r : Relation)
    → low < 8
    → (has_bit 0 (low + relation_flag r) ≡ has_bit 0 low)
      × (has_bit 1 (low + relation_flag r) ≡ has_bit 1 low)
      × (has_bit 2 (low + relation_flag r) ≡ has_bit 2 low)
      × ((low + relation_flag r) / 8 * 8 ≡ 2 ^ relation_place r)
unfolding relation_flag
relation_flag-bits low self l = (ground arith, ground arith, ground arith, ground arith)
relation_flag-bits low descendant l = (ground arith, ground arith, ground arith, ground arith)
relation_flag-bits low ancestor l = (ground arith, ground arith, ground arith, ground arith)
relation_flag-bits low unrelated l = (ground arith, ground arith, ground arith, ground arith)
relation_flag-bits low pattern_peer l = (ground arith, ground arith, ground arith, ground arith)

plus-IsFlags :
    (low : ℕ) (r : Relation)
    → low < 8
    → IsFlags (has_bit 0 low) (has_bit 1 low) (has_bit 2 low) r (low + relation_flag r)
plus-IsFlags low r l =
    let bits = relation_flag-bits low r l in
    record { listen_bit = bits.0; dial_bit = bits.1; up_bit = bits.2; other_bits = bits.3 }

armed_row-IsRow :
    (address peer : WString) (a : ArmedCon)
    → IsRow address peer (some a) none (some (armed_row address peer a))
unfolding armed_row
armed_row-IsRow address peer a =
    let r = classify_peer (some address) (some peer) in (refl, refl, by_role a.listen r)
  where
    by_role : (l : Bool) (r : Relation) → IsFlags l (not l) false r (role_flag l + relation_flag r)
    by_role true r = plus-IsFlags 1 r (omega arith)
    by_role false r = plus-IsFlags 2 r (omega arith)

peer_row-IsRow :
    (address peer : WString) (up : Bool)
    → IsRow address peer none (some up) (some (peer_row address peer up))
unfolding peer_row
peer_row-IsRow address peer true =
    (refl, refl, plus-IsFlags 4 (classify_peer (some address) (some peer)) (omega arith))
peer_row-IsRow address peer false =
    (refl, refl, plus-IsFlags 0 (classify_peer (some address) (some peer)) (omega arith))

both_row-IsRow :
    (address peer : WString) (a : ArmedCon) (up : Bool)
    → IsRow address peer (some a) (some up) (some (both_row address peer a up))
unfolding both_row
both_row-IsRow address peer a up =
    let r = classify_peer (some address) (some peer) in (refl, refl, by_role a.listen up r)
  where
    by_role :
        (l up : Bool) (r : Relation)
        → IsFlags l (not l) up r (role_flag l + (up_flag up + relation_flag r))
    by_role true true r =
        subst (IsFlags true false true r) (omega arith) (plus-IsFlags 5 r (omega arith))
    by_role true false r =
        subst (IsFlags true false false r) (omega arith) (plus-IsFlags 1 r (omega arith))
    by_role false true r =
        subst (IsFlags false true true r) (omega arith) (plus-IsFlags 6 r (omega arith))
    by_role false false r =
        subst (IsFlags false true false r) (omega arith) (plus-IsFlags 2 r (omega arith))

row_of-IsRow :
    (address peer : WString) (a : Option ArmedCon) (up : Option Bool)
    → IsRow address peer a up (row_of address peer a up)
unfolding row_of
row_of-IsRow address peer none none = (refl, refl)
row_of-IsRow address peer (some a) none = armed_row-IsRow address peer a
row_of-IsRow address peer none (some up) = peer_row-IsRow address peer up
row_of-IsRow address peer (some a) (some up) = both_row-IsRow address peer a up

-- The rows of a snapshot of a hub whose maps are in key order are in the order of their peers, each
-- peer once. There is one for a peer exactly when the hub armed it or has seen it: with the endpoint
-- that the hub armed, or an empty one; with the bit of its role where the hub armed it and no role's
-- bit otherwise; with the up bit exactly when the peer is logged in; with the bit of its relation to
-- the hub's address; and with no other bit.
pub snapshot_cons-rows :
    (h : Hub)
    → IsSorted h.armed
    → IsSorted h.peers
    → IsSorted (snapshot_cons h)
      × ((peer : WString)
          → IsRow h.address peer
              (lookup peer h.armed)
              (lookup peer h.peers)
              (lookup peer (snapshot_cons h)))
unfolding snapshot_cons
snapshot_cons-rows h s t = (
  merge_rows-IsSorted h.address h.armed h.peers s t,
  λ peer.
      subst (IsRow h.address peer (lookup peer h.armed) (lookup peer h.peers))
        (sym (lookup-merge_rows h.address peer h.armed h.peers s t))
        (row_of-IsRow h.address peer (lookup peer h.armed) (lookup peer h.peers)),
)
