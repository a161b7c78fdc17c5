-- ===== src/Diagnostics/Severity.antt =====
-- The severities of an event on its way through the kernel.
use target_facade.Base.{
  ℕ, ◌≡◌, Bool, true, false, ◌||◌, List, [], ◌∷◌, some, ltb, arith, ◌==◌, ap, sym, ◌∙◌, Bool-cases,
  inl, inr,
}
use mathlib.Core.Path.{subst}
use target_facade.Base.Lists.{All}
use target_facade.Base.Text.{WString}
use target_facade.Diagnostics.{
  EventClasses, diag_app, diag_class_of, kernel_class_of, Making, raise_diag,
}

abbrev pub class_numbers : EventClasses → List ℕ
class_numbers k =
    k.error_class ∷ k.warning_class ∷ k.info_class ∷ k.debug_class ∷ k.trace_class ∷ k.log_class
    ∷ k.report_class ∷ k.user_class ∷ []

abbrev pub among : ℕ → List ℕ → Bool
among n [] = false
among n (m ∷ ms) = n == m || among n ms

-- no number stands twice in the list
abbrev pub AreDistinct : List ℕ → Type 0
AreDistinct [] = Unit
AreDistinct (n ∷ ns) = (among n ns ≡ false) × AreDistinct ns

-- the severities that the facade names
abbrev pub named_severities : List ℕ
named_severities = 1 ∷ 2 ∷ 3 ∷ 4 ∷ 5 ∷ 6 ∷ 7 ∷ diag_app ∷ []

all-among : (P : ℕ → Type 0) (n : ℕ) (ns : List ℕ) → All P ns → among n ns ≡ true → P n
all-among P n [] all e = cc
all-among P n (m ∷ ms) all e = elim (Bool-cases (n == m)) [
  | inl same ↦ subst P (ground arith) all.0
  | inr apart ↦ all-among P n ms all.1 (ground arith)
]

-- the severity that an event of a named severity comes back with
abbrev ComesBack : EventClasses → ℕ → Type 0
ComesBack k severity = diag_class_of k (kernel_class_of k severity) ≡ severity

named-ComesBack :
    (k : EventClasses) → AreDistinct (class_numbers k) → All (ComesBack k) named_severities
unfolding diag_class_of kernel_class_of
named-ComesBack k apart = (
  ground arith,
  (
    ground arith,
    (
      ground arith,
      (ground arith, (ground arith, (ground arith, (ground arith, (ground arith, tt))))),
    ),
  ),
)

-- Where the kernel numbers its classes apart, an event of a severity that the facade names, when
-- RaiseDiag asks the kernel for it, is given back by DiagClassOf with that same severity. It is only
-- asked for on a thread that is in no delivery, and its severity has a bit in a mask.
pub diag_class_of-raise_diag :
    (k : EventClasses) (severity raised_as : ℕ) (text : WString) (inside : Bool) (r : Making)
    → AreDistinct (class_numbers k)
    → among severity named_severities ≡ true
    → (raise_diag k severity (some text) inside r).1 ≡ some raised_as
    → (diag_class_of k raised_as ≡ severity) × (inside ≡ false) × (ltb severity 32 ≡ true)
unfolding raise_diag
diag_class_of-raise_diag k severity raised_as text inside r apart known asked =
    let e : kernel_class_of k severity ≡ raised_as = ground arith in
    (
      ap (diag_class_of k) (sym e)
          ∙ all-among (ComesBack k) severity named_severities (named-ComesBack k apart) known,
      ground arith,
      ground arith,
    )
