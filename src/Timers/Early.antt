-- ===== src/Timers/Early.antt =====
-- When timers are delivered, against the calls that set them.
use target_facade.Base.{
  ℕ, suc, ◌+◌, ◌≤◌, ◌≡◌, refl, sym, ap, ◌∙◌, Bool, true, false, not, ◌&&◌, ◌||◌, List, [], ◌∷◌,
  Option, none, some, arith, ltb, leb, ◌==◌, if◌then◌else◌, Option-cases, inl, inr, if_both,
}
use mathlib.Core.Path.{subst}
use target_facade.Base.Table.{row, put, row-put, row-remove}
use target_facade.Timers.{
  TimerRow, Plumbing, new_plumbing, next_id, max_rearms, register_timer, drop_timer, settle_arm,
  on_kill_message, elapse, Elapsed, stray, retracted, again, due,
}

-- The sections under the lock that touch the timers, in any order: a client thread comes between the
-- two halves of a handler.
pub data Section : Type 0 where
  registers : ℕ → ℕ → ℕ → Section
  withdraws : ℕ → Section
  settles : ℕ → ℕ → Section
  kills : ℕ → Section
  elapses : Bool → ℕ → ℕ → Section

-- what SetTimer was called for: the id, the key and the deadline
pub record SetCall : Type 0 where
  pub id : ℕ
  pub key : ℕ
  pub deadline : ℕ

-- an elapsed timer that is due: the id, the key and the tick count
pub record DueCall : Type 0 where
  pub id : ℕ
  pub key : ℕ
  pub at : ℕ

-- The timers with what has been seen of them: the calls of SetTimer, the timers that were due, and
-- the ids of those that were armed again because they were early, the latest first.
pub record Trace : Type 0 where
  pub plumbing : Plumbing
  pub set : List SetCall
  pub heard : List DueCall
  pub early : List ℕ

abbrev pub count : ℕ → List ℕ → ℕ
count id [] = 0
count id (i ∷ is) = if i == id then suc (count id is) else count id is

abbrev note_elapse : Elapsed → ℕ → ℕ → Trace → Trace
note_elapse stray id now tr = tr
note_elapse retracted id now tr = tr
note_elapse (again deadline) id now tr = record tr { early = id ∷ tr.early }
note_elapse (due key) id now tr = record tr {
  heard = record { id = id; key = key; at = now } ∷ tr.heard;
}

unfoldable pub advance : Section → Trace → Trace
advance (registers delay key now) tr =
    let made = register_timer delay key now tr.plumbing in
    record tr {
      plumbing = made;
      set = record { id = made.next_timer; key = key; deadline = now + delay } ∷ tr.set;
    }
advance (withdraws id) tr = record tr { plumbing = drop_timer id tr.plumbing }
advance (settles id kernel) tr = record tr { plumbing = (settle_arm id kernel tr.plumbing).1 }
advance (kills id) tr = record tr { plumbing = (on_kill_message id tr.plumbing).1 }
advance (elapses cancel id now) tr =
    let e = elapse cancel id now tr.plumbing in
    note_elapse e.0 id now (record tr { plumbing = e.1 })

abbrev pub advance_all : List Section → Trace → Trace
advance_all [] tr = tr
advance_all (s ∷ ss) tr = advance_all ss (advance s tr)

abbrev pub new_trace : Trace
new_trace = record { plumbing = new_plumbing; set = []; heard = []; early = [] }

-- a call of SetTimer yielded this id for this key, with a deadline for which the test holds
abbrev pub was_set : ℕ → ℕ → (ℕ → Bool) → List SetCall → Bool
was_set id key test [] = false
was_set id key test (c ∷ cs) =
    (c.id == id && (c.key == key && test c.deadline)) || was_set id key test cs

-- how often a timer was due
abbrev pub times_due : ℕ → List DueCall → ℕ
times_due id [] = 0
times_due id (d ∷ ds) = if d.id == id then suc (times_due id ds) else times_due id ds

abbrev pub times_set : ℕ → List SetCall → ℕ
times_set id [] = 0
times_set id (c ∷ cs) = if c.id == id then suc (times_set id cs) else times_set id cs

-- 1 for an id in the table
abbrev waiting : Option TimerRow → ℕ
waiting none = 0
waiting (some r) = 1

-- What is known of a row, and of a timer with this id.
abbrev RowFine : ℕ → Trace → Option TimerRow → Type 0
RowFine id tr none = Unit
RowFine id tr (some r) =
    (was_set id r.key (λ d. d == r.deadline) tr.set ≡ true) × (r.rearms ≤ count id tr.early)

-- A timer was due no earlier than a deadline that it was set for, or it had been early twice.
abbrev pub OnTime : Trace → List DueCall → Type 0
OnTime tr [] = Unit
OnTime tr (d ∷ ds) =
    (was_set d.id d.key
        (λ (deadline : ℕ). leb deadline d.at || leb max_rearms (count d.id tr.early)) tr.set
      ≡ true)
    × OnTime tr ds

record Fine (id : ℕ) (tr : Trace) : Type 0 where
  a_row : RowFine id tr (row id tr.plumbing.timers)
  once : times_due id tr.heard + waiting (row id tr.plumbing.timers) ≤ times_set id tr.set

same_row :
    (id : ℕ) (tr : Trace) (g : Plumbing) (o : Option TimerRow)
    → RowFine id tr o
    → RowFine id (record tr { plumbing = g }) o
same_row id tr g none f = tt
same_row id tr g (some r) f = f

-- a row stays fine when more has been set, or more was early
more_set :
    (id : ℕ) (c : SetCall) (tr : Trace) (g : Plumbing) (o : Option TimerRow)
    → RowFine id tr o
    → RowFine id (record tr { plumbing = g; set = c ∷ tr.set }) o
more_set id c tr g none f = tt
more_set id c tr g (some r) f = (ground arith, f.1)

more_early :
    (id : ℕ) (early : List ℕ) (tr : Trace) (g : Plumbing) (o : Option TimerRow)
    → count id tr.early ≤ count id early
    → RowFine id tr o
    → RowFine id (record tr { plumbing = g; early = early }) o
more_early id early tr g none h f = tt
more_early id early tr g (some r) h f = (f.0, omega arith)

same_id : (i id : ℕ) → (i == id) ≡ true → i ≡ id
same_id i id e = ground arith

register-Fine :
    (delay key now id : ℕ) (tr : Trace)
    → Fine id tr
    → Fine id (advance (registers delay key now) tr)
unfolding advance register_timer
register-Fine delay key now id tr f =
    let made = register_timer delay key now tr.plumbing in
    let new = next_id tr.plumbing.next_timer in
    let r : TimerRow = record { kernel_id = 0; key = key; deadline = now + delay; rearms = 0 } in
    let c : SetCall = record { id = new; key = key; deadline = now + delay } in
    let look = row-put new id r tr.plumbing.timers in
    let tr' : Trace = record tr { plumbing = made; set = c ∷ tr.set } in
    record {
      a_row = subst (RowFine id tr') (sym look) (
          if_both (RowFine id tr') (new == id) (some r) (row id tr.plumbing.timers)
            (λ e. (ground (arith, e), omega arith))
            (λ e. more_set id c tr made (row id tr.plumbing.timers) f.a_row));
      once = ground (arith, look);
    }

-- the row of one timer is dropped
drop-Fine :
    (i id : ℕ) (tr : Trace)
    → Fine id tr
    → Fine id (record tr { plumbing = drop_timer i tr.plumbing })
drop-Fine i id tr f =
    let look = row-remove i id tr.plumbing.timers in
    let tr' : Trace = record tr { plumbing = drop_timer i tr.plumbing } in
    record {
      a_row = subst (RowFine id tr') (sym look) (
          if_both (RowFine id tr') (i == id) none (row id tr.plumbing.timers) (λ e. tt)
            (λ e. same_row id tr tr'.plumbing (row id tr.plumbing.timers) f.a_row));
      once = ground (arith, look);
    }

abbrev put_timer : ℕ → TimerRow → Plumbing → Plumbing
put_timer i r t = record t { timers = put i r t.timers }

-- a row is replaced by one for the same call of SetTimer
put-Fine :
    (i id : ℕ) (r r' : TimerRow) (early : List ℕ) (tr : Trace)
    → Fine id tr
    → row i tr.plumbing.timers ≡ some r
    → r'.key ≡ r.key
    → r'.deadline ≡ r.deadline
    → count id tr.early ≤ count id early
    → (i ≡ id → r.rearms ≤ count id tr.early → r'.rearms ≤ count id early)
    → Fine id (record tr { plumbing = put_timer i r' tr.plumbing; early = early })
put-Fine i id r r' early tr f e same_key same_deadline more kept =
    let look = row-put i id r' tr.plumbing.timers in
    let t = put_timer i r' tr.plumbing in
    let tr' : Trace = record tr { plumbing = t; early = early } in
    let old = λ (q : i ≡ id).
      subst (RowFine id tr) (ap (λ j. row j tr.plumbing.timers) (sym q) ∙ e) f.a_row in
    record {
      a_row = subst (RowFine id tr') (sym look) (
          if_both (RowFine id tr') (i == id) (some r') (row id tr.plumbing.timers)
            (λ b.
              let q = same_id i id b in (rw (same_key, same_deadline) (old q).0, kept q (old q).1))
            (λ b. more_early id early tr t (row id tr.plumbing.timers) more f.a_row));
      once = ground (arith, look, e, same_id i id);
    }

settle-Fine : (i kernel id : ℕ) (tr : Trace) → Fine id tr → Fine id (advance (settles i kernel) tr)
unfolding advance settle_arm
settle-Fine i kernel id tr f = elim (Option-cases (row i tr.plumbing.timers)) [
  | inl e ↦ rw (e, settle_arm) f
  | inr (r, e) ↦
      rw (e, settle_arm)
        (if_both (λ (x : Option ℕ × Plumbing). Fine id (record tr { plumbing = x.1 })) (kernel == 0)
          (none, drop_timer i tr.plumbing)
          (none, put_timer i (record r { kernel_id = kernel }) tr.plumbing)
          (λ b. drop-Fine i id tr f)
          (λ b.
            put-Fine i id r (record r { kernel_id = kernel }) tr.early tr f e refl refl
              (omega arith) (λ q h. h)))
]

kill-Fine : (i id : ℕ) (tr : Trace) → Fine id tr → Fine id (advance (kills i) tr)
unfolding advance on_kill_message
kill-Fine i id tr f = elim (Option-cases (row i tr.plumbing.timers)) [
  | inl e ↦ rw (e, on_kill_message) f
  | inr (r, e) ↦ rw (e, on_kill_message) (drop-Fine i id tr f)
]

due-Fine :
    (i now id : ℕ) (r : TimerRow) (tr : Trace)
    → Fine id tr
    → row i tr.plumbing.timers ≡ some r
    → Fine id (note_elapse (due r.key) i now (record tr { plumbing = drop_timer i tr.plumbing }))
due-Fine i now id r tr f e =
    let dropped = drop-Fine i id tr f in
    record {
      a_row = dropped.a_row;
      once = ground (arith, row-remove i id tr.plumbing.timers, e, f.once, same_id i id);
    }

elapse-Fine :
    (cancel : Bool) (i now id : ℕ) (tr : Trace)
    → Fine id tr
    → Fine id (advance (elapses cancel i now) tr)
unfolding advance elapse
elapse-Fine cancel i now id tr f = elim (Option-cases (row i tr.plumbing.timers)) [
  | inl e ↦ rw (e, elapse) f
  | inr (r, e) ↦
      rw (e, elapse)
        (if_both
          (λ (x : Elapsed × Plumbing).
            Fine id (note_elapse x.0 i now (record tr { plumbing = x.1 })))
          (not cancel && (ltb now r.deadline && ltb r.rearms max_rearms))
          (again r.deadline, put_timer i (record r { rearms = r.rearms + 1 }) tr.plumbing)
          (if cancel then retracted else due r.key, drop_timer i tr.plumbing)
          (λ b.
            put-Fine i id r (record r { rearms = r.rearms + 1 }) (i ∷ tr.early) tr f e refl refl
              (ground arith) (λ q h. ground arith))
          (λ b.
            if_both
              (λ (x : Elapsed).
                Fine id (note_elapse x i now (record tr { plumbing = drop_timer i tr.plumbing })))
              cancel retracted (due r.key) (λ c. drop-Fine i id tr f)
              (λ c. due-Fine i now id r tr f e)))
]

advance-Fine : (s : Section) (id : ℕ) (tr : Trace) → Fine id tr → Fine id (advance s tr)
unfolding advance
advance-Fine (registers delay key now) id tr f = register-Fine delay key now id tr f
advance-Fine (withdraws i) id tr f = drop-Fine i id tr f
advance-Fine (settles i kernel) id tr f = settle-Fine i kernel id tr f
advance-Fine (kills i) id tr f = kill-Fine i id tr f
advance-Fine (elapses cancel i now) id tr f = elapse-Fine cancel i now id tr f

was_set_imply :
    (id key : ℕ) (test other : ℕ → Bool) (cs : List SetCall)
    → ((d : ℕ) → test d ≡ true → other d ≡ true)
    → was_set id key test cs ≡ true
    → was_set id key other cs ≡ true
was_set_imply id key test other [] h t = cc
was_set_imply id key test other (c ∷ cs) h t =
    ground (arith, was_set_imply id key test other cs h, h c.deadline)

OnTime-set :
    (c : SetCall) (tr : Trace) (g : Plumbing) (ds : List DueCall)
    → OnTime tr ds
    → OnTime (record tr { plumbing = g; set = c ∷ tr.set }) ds
OnTime-set c tr g [] h = tt
OnTime-set c tr g (d ∷ ds) h = (ground (arith, h.0), OnTime-set c tr g ds h.1)

OnTime-early :
    (i : ℕ) (tr : Trace) (g : Plumbing) (ds : List DueCall)
    → OnTime tr ds
    → OnTime (record tr { plumbing = g; early = i ∷ tr.early }) ds
OnTime-early i tr g [] h = tt
OnTime-early i tr g (d ∷ ds) h = (
  was_set_imply d.id d.key
      (λ (deadline : ℕ). leb deadline d.at || leb max_rearms (count d.id tr.early))
      (λ (deadline : ℕ). leb deadline d.at || leb max_rearms (count d.id (i ∷ tr.early))) tr.set
      (λ k e. ground arith) h.0,
  OnTime-early i tr g ds h.1,
)

OnTime-same :
    (tr : Trace) (g : Plumbing) (heard : List DueCall) (ds : List DueCall)
    → OnTime tr ds
    → OnTime (record tr { plumbing = g; heard = heard }) ds
OnTime-same tr g heard [] h = tt
OnTime-same tr g heard (d ∷ ds) h = (h.0, OnTime-same tr g heard ds h.1)

due-OnTime :
    (i now : ℕ) (r : TimerRow) (tr : Trace)
    → Fine i tr
    → row i tr.plumbing.timers ≡ some r
    → (ltb now r.deadline && ltb r.rearms max_rearms) ≡ false
    → was_set i r.key
        (λ (deadline : ℕ). leb deadline now || leb max_rearms (count i tr.early))
        tr.set
      ≡ true
due-OnTime i now r tr f e late =
    let fine = subst (RowFine i tr) e f.a_row in
    was_set_imply i r.key (λ d. d == r.deadline)
      (λ (deadline : ℕ). leb deadline now || leb max_rearms (count i tr.early)) tr.set
      (λ d same. ground (arith, late, fine.1)) fine.0

elapse-OnTime :
    (cancel : Bool) (i now : ℕ) (tr : Trace)
    → Fine i tr
    → OnTime tr tr.heard
    → OnTime (advance (elapses cancel i now) tr) (advance (elapses cancel i now) tr).heard
unfolding advance elapse
elapse-OnTime cancel i now tr f h = elim (Option-cases (row i tr.plumbing.timers)) [
  | inl e ↦ rw (e, elapse) h
  | inr (r, e) ↦
      let t = drop_timer i tr.plumbing in
      let on_time = λ (x : Elapsed × Plumbing).
        OnTime (note_elapse x.0 i now (record tr { plumbing = x.1 }))
          (note_elapse x.0 i now (record tr { plumbing = x.1 })).heard in
      rw (e, elapse)
        (if_both on_time (not cancel && (ltb now r.deadline && ltb r.rearms max_rearms))
          (again r.deadline, put_timer i (record r { rearms = r.rearms + 1 }) tr.plumbing)
          (if cancel then retracted else due r.key, t)
          (λ b.
            OnTime-early i tr (put_timer i (record r { rearms = r.rearms + 1 }) tr.plumbing)
              tr.heard h)
          (λ b.
            if_both (λ (x : Elapsed). on_time (x, t)) cancel retracted (due r.key)
              (λ c. OnTime-same tr t tr.heard tr.heard h)
              (λ c. (
                due-OnTime i now r tr f e (ground arith),
                OnTime-same tr t (record { id = i; key = r.key; at = now } ∷ tr.heard) tr.heard h,
              ))))
]

advance-OnTime :
    (s : Section) (tr : Trace)
    → ((id : ℕ) → Fine id tr)
    → OnTime tr tr.heard
    → OnTime (advance s tr) (advance s tr).heard
unfolding advance
advance-OnTime (registers delay key now) tr f h =
    let made = register_timer delay key now tr.plumbing in
    OnTime-set (record { id = made.next_timer; key = key; deadline = now + delay }) tr made tr.heard
      h
advance-OnTime (withdraws i) tr f h = OnTime-same tr (drop_timer i tr.plumbing) tr.heard tr.heard h
advance-OnTime (settles i kernel) tr f h =
    OnTime-same tr (settle_arm i kernel tr.plumbing).1 tr.heard tr.heard h
advance-OnTime (kills i) tr f h =
    OnTime-same tr (on_kill_message i tr.plumbing).1 tr.heard tr.heard h
advance-OnTime (elapses cancel i now) tr f h = elapse-OnTime cancel i now tr (f i) h

advance_all-OnTime :
    (ss : List Section) (tr : Trace)
    → ((id : ℕ) → Fine id tr)
    → OnTime tr tr.heard
    → OnTime (advance_all ss tr) (advance_all ss tr).heard
      × ((id : ℕ) → Fine id (advance_all ss tr))
advance_all-OnTime [] tr f h = (h, f)
advance_all-OnTime (s ∷ ss) tr f h =
    advance_all-OnTime ss (advance s tr) (λ id. advance-Fine s id tr (f id))
      (advance-OnTime s tr f h)

new_trace-Fine : (id : ℕ) → Fine id new_trace
unfolding row
new_trace-Fine id = record { a_row = tt; once = omega arith }

-- Whatever order the sections run in from an empty table on: each timer that is due was set with
-- that id and key, for a deadline that has passed or behind two early wake-ups of timers with its id,
-- and no id is due more often than SetTimer gave it out.
pub elapse-OnTime_always :
    (ss : List Section) (id : ℕ)
    → let tr = advance_all ss new_trace in
      OnTime tr tr.heard × (times_due id tr.heard ≤ times_set id tr.set)
elapse-OnTime_always ss id =
    let all = advance_all-OnTime ss new_trace new_trace-Fine tt in
    let once = (all.1 id).once in (all.0, omega arith)
