-- ===== src/Endpoint/Peer/Tree.antt =====
-- The classifier against the address tree: an address is below another when it extends it by a
-- dot and more.
use mathlib.Core.Path.{subst}
use target_facade.Base.{
  ◌<◌, true, false, ◌&&◌, ◌≡◌, ◌≢◌, ◌↔◌, inl, inr, refl, ◌∙◌, [], ◌∷◌, ◌++◌, some, arith, ◌==◌,
  Bool-cases, append_assoc,
}
use target_facade.Base.Lists.{length, length-append}
use target_facade.Base.Text.{WString, equal, equal_iff, is_empty, starts_with}
use target_facade.Endpoint.Peer.{
  is_pattern, is_below, unit_at, Relation, self, descendant, ancestor, unrelated, pattern_peer,
  classify_peer,
}

-- `child` is `parent`, a dot, and more (perhaps nothing).
abbrev pub Below : WString → WString → Type 0
Below parent child = (rest : WString) × (child ≡ parent ++ b'.' ∷ rest)

prefix_dot :
    (parent child : WString)
    → (starts_with parent child && unit_at child (length parent) == b'.') ≡ true
    → Below parent child
unfolding starts_with
prefix_dot [] [] h = ground arith
prefix_dot [] (c ∷ child) h = (child, ground arith)
prefix_dot (x ∷ parent) [] h = cc
prefix_dot (x ∷ parent) (c ∷ child) h =
    let (rest, e) = prefix_dot parent child (ground arith) in (rest, ground arith)

dot_prefix :
    (parent rest : WString)
    → (starts_with parent (parent ++ b'.' ∷ rest)
        && unit_at (parent ++ b'.' ∷ rest) (length parent) == b'.')
      ≡ true
unfolding starts_with
dot_prefix [] rest = refl
dot_prefix (x ∷ parent) rest = ground (arith, dot_prefix parent rest)

-- `IsBelow` decides `Below` for a parent that is not empty.
pub is_below_iff :
    (parent child : WString)
    → is_empty parent ≡ false
    → (is_below parent child ≡ true) ↔ Below parent child
unfolding is_below
is_below_iff parent child f =
    (λ h. prefix_dot parent child (ground arith), λ b. rw f (rw b.1 (dot_prefix parent b.0)))

Below-trans : (a b c : WString) → Below a b → Below b c → Below a c
Below-trans a b c (r, e) (s, d) = (r ++ b'.' ∷ s, d ∙ rw e (append_assoc a (b'.' ∷ r) (b'.' ∷ s)))

-- An address is longer than what it is below.
Below-longer : (a b : WString) → Below a b → length a < length b
Below-longer a b (r, e) = rw e (omega (arith, length-append {0} a (b'.' ∷ r)))

-- Where two literal addresses sit, said of the address tree.
abbrev pub Sits : WString → WString → Relation → Type 0
Sits address peer self = address ≡ peer
Sits address peer descendant = Below address peer
Sits address peer ancestor = Below peer address
Sits address peer unrelated = (address ≢ peer) × (¬ Below address peer) × (¬ Below peer address)
Sits address peer pattern_peer = ⊥

module _ (address peer : WString) (a : is_empty address ≡ false) (b : is_empty peer ≡ false) where
  classify_peer-Sits :
      is_pattern peer ≡ false → Sits address peer (classify_peer (some address) (some peer))
  unfolding classify_peer
  classify_peer-Sits n =
      rw (a, b, n)
        (elim (Bool-cases (equal address peer)) [
          | inl e ↦ rw e ((equal_iff address peer).0 e)
          | inr e ↦ rw e (elim (Bool-cases (is_below address peer)) [
            | inl f ↦ rw f ((is_below_iff address peer a).0 f)
            | inr f ↦ rw f (elim (Bool-cases (is_below peer address)) [
              | inl g ↦ rw g ((is_below_iff peer address b).0 g)
              | inr g ↦ rw g (
                (λ same. cc ((equal_iff address peer).1 same)),
                (λ below. cc ((is_below_iff address peer a).1 below)),
                (λ above. cc ((is_below_iff peer address b).1 above)),
              )
            ])
          ])
        ])

  Sits-classify_peer :
      (r : Relation)
      → is_pattern peer ≡ false
      → Sits address peer r
      → classify_peer (some address) (some peer) ≡ r
  unfolding classify_peer
  Sits-classify_peer self n y = rw (a, b, n) (rw ((equal_iff address peer).1 y))
  Sits-classify_peer descendant n y = ground (
    arith,
    equal_iff address peer,
    (is_below_iff address peer a).1 y,
    Below-longer address peer y,
  )
  Sits-classify_peer ancestor n y =
      let unlike = λ (q : Below address peer). Below-longer address peer q in
      elim (Bool-cases (is_below address peer)) [
        | inl f ↦
            absurd (
              omega
                (arith, unlike ((is_below_iff address peer a).0 f), Below-longer peer address y))
        | inr f ↦ ground (
          arith,
          equal_iff address peer,
          (is_below_iff peer address b).1 y,
          Below-longer peer address y,
        )
      ]
  Sits-classify_peer unrelated n y = elim (Bool-cases (is_below address peer)) [
    | inl f ↦ absurd (y.1 ((is_below_iff address peer a).0 f))
    | inr f ↦ elim (Bool-cases (is_below peer address)) [
      | inl g ↦ absurd (y.2 ((is_below_iff peer address b).0 g))
      | inr g ↦ ground (arith, equal_iff address peer)
    ]
  ]
  Sits-classify_peer pattern_peer n y = absurd y

  -- For two addresses that are not empty, the second no pattern, ClassifyPeer answers self,
  -- descendant, ancestor or unrelated exactly when they are equal, the second is below the first,
  -- the first is below the second, or none of these; and never that the peer is a pattern.
  pub classify_peer_iff :
      is_pattern peer ≡ false
      → (r : Relation) → (classify_peer (some address) (some peer) ≡ r) ↔ Sits address peer r
  classify_peer_iff n r =
      (λ e. subst (Sits address peer) e (classify_peer-Sits n), Sits-classify_peer r n)

-- Of two literal addresses, the second is a descendant seen from the first exactly when the first
-- is an ancestor seen from the second.
pub descendant-ancestor :
    (address peer : WString)
    → is_empty address ≡ false
    → is_empty peer ≡ false
    → is_pattern address ≡ false
    → is_pattern peer ≡ false
    → (classify_peer (some address) (some peer) ≡ descendant)
      ↔ (classify_peer (some peer) (some address) ≡ ancestor)
descendant-ancestor address peer a b m n = (
  λ h.
      (classify_peer_iff peer address b a m ancestor).1
        ((classify_peer_iff address peer a b n descendant).0 h),
  λ h.
      (classify_peer_iff address peer a b n descendant).1
        ((classify_peer_iff peer address b a m ancestor).0 h),
)

descendant_literal :
    (address peer : WString)
    → classify_peer (some address) (some peer) ≡ descendant
    → (is_empty address ≡ false) × (is_empty peer ≡ false) × (is_pattern peer ≡ false)
unfolding classify_peer
descendant_literal address peer h = ground arith

-- A descendant of a descendant is a descendant.
pub descendant_trans :
    (top middle leaf : WString)
    → classify_peer (some top) (some middle) ≡ descendant
    → classify_peer (some middle) (some leaf) ≡ descendant
    → classify_peer (some top) (some leaf) ≡ descendant
descendant_trans top middle leaf h k =
    let (a, b, n) = descendant_literal top middle h in
    let (_, c, m) = descendant_literal middle leaf k in
    (classify_peer_iff top leaf a c m descendant).1 (
      Below-trans top middle leaf ((classify_peer_iff top middle a b n descendant).0 h)
        ((classify_peer_iff middle leaf b c m descendant).0 k))
