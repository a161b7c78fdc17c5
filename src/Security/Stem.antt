-- ===== src/Security/Stem.antt =====
-- The names of key files: SecurityStemOf.
use target_facade.Base.{
  ℕ, zero, suc, ◌/◌, ◌%◌, ◌≤◌, ◌<◌, ◌≡◌, refl, ◌∙◌, ap, true, false, [], ◌∷◌, ◌++◌, arith,
}
use target_facade.Base.Lists.{length, take, all}
use target_facade.Base.Text.{WString, is_empty}
use target_facade.Security.{
  security_stem_of, stem_by, sanitise, is_plain, hex_onto, hex_digit, fnv_hash, stem_tail, stem_max,
}

all_plain-append :
    (s t : WString) → all is_plain s ≡ true → all is_plain t ≡ true → all is_plain (s ++ t) ≡ true
all_plain-append [] t h g = g
all_plain-append (c ∷ s) t h g = ground (arith, all_plain-append s t)

sanitise-plain : (s : WString) → all is_plain (sanitise s) ≡ true
unfolding sanitise
sanitise-plain [] = refl
sanitise-plain (c ∷ s) = ground (arith, sanitise-plain s)

sanitise-kept : (s : WString) → all is_plain s ≡ true → sanitise s ≡ s
unfolding sanitise
sanitise-kept [] h = refl
sanitise-kept (c ∷ s) h = ground (arith, sanitise-kept s)

hex_digit-plain : (d : ℕ) → d < 16 → is_plain (hex_digit d) ≡ true
hex_digit-plain d h = ground arith

hex_onto-plain :
    (digits n : ℕ) (rest : WString)
    → all is_plain rest ≡ true
    → all is_plain (hex_onto digits n rest) ≡ true
unfolding hex_onto
hex_onto-plain zero n rest h = h
hex_onto-plain (suc digits) n rest h =
    hex_onto-plain digits (n / 16) (hex_digit (n % 16) ∷ rest)
      (rw (hex_digit-plain (n % 16) (omega arith)) h)

take_short : (n : ℕ) (s : WString) → length s ≤ n → take n s ≡ s
take_short zero [] h = refl
take_short zero (c ∷ s) h = absurd (omega arith)
take_short (suc n) [] h = refl
take_short (suc n) (c ∷ s) h = ap (◌∷◌ c) (take_short n s (omega arith))

stem_by-kept :
    (c : ℕ) (s : WString)
    → all is_plain (c ∷ s) ≡ true
    → length (c ∷ s) ≤ stem_max
    → stem_by (c ∷ s) (c ∷ s) ≡ c ∷ s
unfolding stem_by sanitise
stem_by-kept c s plain short = ground (arith, sanitise-kept s)

stem_kept :
    (s : WString)
    → all is_plain s ≡ true
    → is_empty s ≡ false
    → length s ≤ stem_max
    → security_stem_of s ≡ s
unfolding security_stem_of
stem_kept [] plain filled short = cc
stem_kept (c ∷ s) plain filled short =
    ap (λ t. stem_by t (c ∷ s)) (take_short stem_max (c ∷ s) short) ∙ stem_by-kept c s plain short

ne_nil-append : (s t : WString) → is_empty s ≡ false → is_empty (s ++ t) ≡ false
ne_nil-append [] t h = cc
ne_nil-append (c ∷ s) t h = refl

stem_by-plain :
    (taken a : WString)
    → (all is_plain (stem_by taken a) ≡ true) × (is_empty (stem_by taken a) ≡ false)
unfolding stem_by sanitise
stem_by-plain [] a = (hex_onto-plain 8 (fnv_hash 2166136261 a) [] refl, refl)
stem_by-plain (c ∷ s) a =
    let tail = hex_onto-plain 8 (fnv_hash 2166136261 a) [] refl in
    let body = sanitise-plain (c ∷ s) in
    let whole = all_plain-append (sanitise (c ∷ s)) (stem_tail a) body tail in
    (ground (arith, whole, body), ground arith)

stem-plain :
    (a : WString)
    → (all is_plain (security_stem_of a) ≡ true) × (is_empty (security_stem_of a) ≡ false)
unfolding security_stem_of
stem-plain a = stem_by-plain (take stem_max a) a

-- Every stem that is short enough to be an address is the stem of the hub of that address too: the
-- hub whose address is the stem of another one's reads and writes the other hub's key files.
pub security_stem_of_idempotent :
    (a : WString)
    → length (security_stem_of a) ≤ stem_max
    → security_stem_of (security_stem_of a) ≡ security_stem_of a
security_stem_of_idempotent a short =
    let made = stem-plain a in stem_kept (security_stem_of a) made.0 made.1 short
