-- ===== src/Diagnostics/Unregister.antt =====
-- Who can be in a client's sink once SetDiagSink has put none in its place.
use target_facade.Base.{
  ℕ, zero, suc, ◌+◌, ◌≡◌, refl, sym, Bool, true, false, List, [], ◌∷◌, Option, none, some, arith,
  ◌==◌, if_both, ◌∙◌,
}
use mathlib.Core.Path.{subst}
use target_facade.Status.{HResult}
use target_facade.Base.Lists.{All}
use target_facade.Diagnostics.{
  DiagSlot, Phase, idle, numbered, counted, sink_read, calling, leaving, deliver, Delivering,
  deliver_at, Move, delivers, masks, move, moves, quiesce, quiesce_slices, Meanwhile, put_sink,
  put_held, set_diag_mask, set_diag_sink, set_mask, is_reserved_mask,
}

-- one for a thread that m_lDiagBusy counts
abbrev pub weight : Phase → ℕ
weight idle = 0
weight (numbered n) = 0
weight (counted n) = 1
weight (sink_read n s) = 1
weight (calling n s) = 1
weight leaving = 1

abbrev pub inside : List Phase → ℕ
inside [] = 0
inside (t ∷ ts) = weight t + inside ts

-- a thread that has no sink in its hands
abbrev pub IsFree : Phase → Type 0
IsFree (sink_read n (some s)) = ⊥
IsFree (calling n s) = ⊥
IsFree _ = Unit

-- no thread has a sink, and none can get one from the slot
abbrev pub IsUnreachable : Delivering → Type 0
IsUnreachable w = (w.slot.sink ≡ none) × All IsFree w.threads

abbrev pub IsCounted : Delivering → Type 0
IsCounted w = w.slot.busy ≡ inside w.threads

deliver-weight :
    (severity : Option ℕ) (t : Phase) (d : DiagSlot) (others : ℕ)
    → d.busy ≡ weight t + others
    → (deliver severity t d).1.busy ≡ weight (deliver severity t d).0 + others
unfolding deliver
deliver-weight severity idle d others e = ground arith
deliver-weight severity (numbered n) d others e = ground arith
deliver-weight severity (counted n) d others e = e
deliver-weight severity (sink_read n none) d others e = e
deliver-weight severity (sink_read n (some s)) d others e = ground arith
deliver-weight severity (calling n s) d others e = e
deliver-weight severity leaving d others e = ground arith

deliver_at-inside :
    (i : ℕ) (severity : Option ℕ) (ts : List Phase) (d : DiagSlot) (others : ℕ)
    → d.busy ≡ inside ts + others
    → (deliver_at i severity ts d).1.busy ≡ inside (deliver_at i severity ts d).0 + others
unfolding deliver_at
deliver_at-inside i severity [] d others e = e
deliver_at-inside zero severity (t ∷ ts) d others e =
    ground (arith, deliver-weight severity t d (inside ts + others) (ground arith))
deliver_at-inside (suc i) severity (t ∷ ts) d others e =
    ground (arith, deliver_at-inside i severity ts d (weight t + others) (ground arith))

move-IsCounted : (m : Move) (w : Delivering) → IsCounted w → IsCounted (move m w)
unfolding move set_diag_mask
move-IsCounted (delivers i severity) w e =
    ground (arith, deliver_at-inside i severity w.threads w.slot 0 (ground arith))
move-IsCounted (masks mask) w e = ground arith

moves-IsCounted : (ms : List Move) (w : Delivering) → IsCounted w → IsCounted (moves ms w)
unfolding moves
moves-IsCounted [] w e = e
moves-IsCounted (m ∷ ms) w e = moves-IsCounted ms (move m w) (move-IsCounted m w e)

deliver_at-sink :
    (i : ℕ) (severity : Option ℕ) (ts : List Phase) (d : DiagSlot)
    → (deliver_at i severity ts d).1.sink ≡ d.sink
unfolding deliver_at deliver
deliver_at-sink i severity [] d = refl
deliver_at-sink zero severity (idle ∷ ts) d = refl
deliver_at-sink zero severity (numbered n ∷ ts) d = refl
deliver_at-sink zero severity (counted n ∷ ts) d = refl
deliver_at-sink zero severity (sink_read n none ∷ ts) d = refl
deliver_at-sink zero severity (sink_read n (some s) ∷ ts) d = refl
deliver_at-sink zero severity (calling n s ∷ ts) d = refl
deliver_at-sink zero severity (leaving ∷ ts) d = refl
deliver_at-sink (suc i) severity (t ∷ ts) d = deliver_at-sink i severity ts d

move-sink : (m : Move) (w : Delivering) → (move m w).slot.sink ≡ w.slot.sink
unfolding move set_diag_mask
move-sink (delivers i severity) w = deliver_at-sink i severity w.threads w.slot
move-sink (masks mask) w = ground arith

moves-sink : (ms : List Move) (w : Delivering) → (moves ms w).slot.sink ≡ w.slot.sink
unfolding moves
moves-sink [] w = refl
moves-sink (m ∷ ms) w = moves-sink ms (move m w) ∙ move-sink m w

deliver-IsFree :
    (severity : Option ℕ) (t : Phase) (d : DiagSlot)
    → d.sink ≡ none
    → IsFree t
    → IsFree (deliver severity t d).0
unfolding deliver
deliver-IsFree severity idle d e f = tt
deliver-IsFree severity (numbered n) d e f = tt
deliver-IsFree severity (counted n) d e f = subst (λ s. IsFree (sink_read n s)) (sym e) tt
deliver-IsFree severity (sink_read n none) d e f = tt
deliver-IsFree severity (sink_read n (some s)) d e f = absurd f
deliver-IsFree severity (calling n s) d e f = tt
deliver-IsFree severity leaving d e f = tt

deliver_at-IsFree :
    (i : ℕ) (severity : Option ℕ) (ts : List Phase) (d : DiagSlot)
    → d.sink ≡ none
    → All IsFree ts
    → All IsFree (deliver_at i severity ts d).0
unfolding deliver_at
deliver_at-IsFree i severity [] d e f = tt
deliver_at-IsFree zero severity (t ∷ ts) d e f = (deliver-IsFree severity t d e f.0, f.1)
deliver_at-IsFree (suc i) severity (t ∷ ts) d e f = (f.0, deliver_at-IsFree i severity ts d e f.1)

move-IsUnreachable : (m : Move) (w : Delivering) → IsUnreachable w → IsUnreachable (move m w)
unfolding move
move-IsUnreachable (delivers i severity) w u =
    (move-sink (delivers i severity) w ∙ u.0, deliver_at-IsFree i severity w.threads w.slot u.0 u.1)
move-IsUnreachable (masks mask) w u = (move-sink (masks mask) w ∙ u.0, u.1)

moves-IsUnreachable :
    (ms : List Move) (w : Delivering) → IsUnreachable w → IsUnreachable (moves ms w)
unfolding moves
moves-IsUnreachable [] w u = u
moves-IsUnreachable (m ∷ ms) w u = moves-IsUnreachable ms (move m w) (move-IsUnreachable m w u)

inside-IsFree : (ts : List Phase) → inside ts ≡ 0 → All IsFree ts
inside-IsFree [] e = tt
inside-IsFree (idle ∷ ts) e = (tt, inside-IsFree ts (omega arith))
inside-IsFree (numbered n ∷ ts) e = (tt, inside-IsFree ts (omega arith))
inside-IsFree (counted n ∷ ts) e = absurd (omega arith)
inside-IsFree (sink_read n s ∷ ts) e = absurd (omega arith)
inside-IsFree (calling n s ∷ ts) e = absurd (omega arith)
inside-IsFree (leaving ∷ ts) e = absurd (omega arith)

abbrev Quieted : Bool × Delivering → Type 0
Quieted r = r.0 ≡ true → IsUnreachable r.1

quiesce-Quieted :
    (n : ℕ) (slept : ℕ → List Move) (w : Delivering)
    → IsCounted w
    → w.slot.sink ≡ none
    → Quieted (quiesce n slept w)
unfolding quiesce
quiesce-Quieted zero slept w c e = λ quiet. cc
quiesce-Quieted (suc n) slept w c e =
    if_both Quieted (w.slot.busy == 0) _ _ (λ z quiet. (e, inside-IsFree w.threads (ground arith)))
      (λ z.
        quiesce-Quieted n slept (moves (slept n) w) (moves-IsCounted (slept n) w c)
          (moves-sink (slept n) w ∙ e))

abbrev QuietAnswer : HResult × Bool × Delivering → Type 0
QuietAnswer r = r.1 ≡ true → IsUnreachable r.2

-- SetDiagSink of no sink whose wait sees the count at zero, which is that of the deliveries inside when
-- it starts, leaves no thread with a sink, whatever other threads deliver and whatever masks they set
-- between its steps; and whatever they deliver afterwards, none of them gets a sink.
pub set_diag_sink-IsUnreachable :
    (mask : ℕ) (inside_one : Bool) (m : Meanwhile) (w : Delivering) (later : List Move)
    → IsCounted w
    → (set_diag_sink none mask inside_one m w).1 ≡ true
    → IsUnreachable (moves later (set_diag_sink none mask inside_one m w).2)
unfolding set_diag_sink
set_diag_sink-IsUnreachable mask inside_one m w later c quiet =
    let started : Delivering = record w { slot = set_mask mask w.slot } in
    let masked = moves m.behind_mask started in
    let put = moves m.behind_sink (put_sink none masked) in
    let taken = moves m.behind_slot (put_held false put) in
    let counted_put =
      moves-IsCounted m.behind_sink (put_sink none masked)
        (moves-IsCounted m.behind_mask started c) in
    let counted_taken = moves-IsCounted m.behind_slot (put_held false put) counted_put in
    let none_taken =
      moves-sink m.behind_slot (put_held false put)
      ∙ moves-sink m.behind_sink (put_sink none masked) in
    let answer =
      if_both QuietAnswer (is_reserved_mask mask) _ _ (λ e x. cc)
        (λ e.
          if_both QuietAnswer inside_one _ _ (λ f x. cc)
            (λ f. quiesce-Quieted quiesce_slices m.slept taken counted_taken none_taken)) in
    moves-IsUnreachable later (set_diag_sink none mask inside_one m w).2 (answer quiet)
