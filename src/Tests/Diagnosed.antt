-- ===== src/Tests/Diagnosed.antt =====
-- Diagnostics at inputs where the theorems apply.
use target_facade.Base.{◌≡◌, refl, [], ◌∷◌, none, some, true, false}
use target_facade.Base.{ltb}
use target_facade.Base.Text.{codes}
use target_facade.Diagnostics.Severity.{diag_class_of-raise_diag}
use target_facade.Diagnostics.{
  EventClasses, raised, diag_class_of, raise_diag, kernel_class_of, Delivering, delivers, masks,
  idle, calling, counted, Meanwhile, moves, move, deliver, deliver_at, quiesce, set_diag_mask,
  set_diag_sink,
}
use target_facade.Diagnostics.Unregister.{IsUnreachable, set_diag_sink-IsUnreachable}

-- one thread in a sink, and one about to read it
abbrev two_inside : Delivering
two_inside = record {
  slot = record { sink = some 7; mask = 6; held = true; busy = 2; serial = 5 };
  threads = calling 4 7 ∷ counted 5 ∷ idle ∷ [];
}

-- the second reads the slot behind the sink's withdrawal; both leave in the first two slices
abbrev leave_in_turn : Meanwhile
leave_in_turn = record {
  behind_mask = delivers 0 none ∷ [];
  behind_sink = delivers 1 none ∷ [];
  behind_slot = masks 2 ∷ [];
  slept = λ n. delivers 0 none ∷ delivers 1 (some 1) ∷ [];
}

set_diag_sink-IsUnreachable_example : IsUnreachable (
    moves
      (delivers 2 (some 1) ∷ delivers 2 (some 1) ∷ delivers 2 (some 1) ∷ [])
      (set_diag_sink none 6 false leave_in_turn two_inside).2)
unfolding set_diag_sink quiesce moves move deliver_at deliver set_diag_mask
set_diag_sink-IsUnreachable_example =
    set_diag_sink-IsUnreachable 6 false leave_in_turn two_inside
      (delivers 2 (some 1) ∷ delivers 2 (some 1) ∷ delivers 2 (some 1) ∷ []) refl refl

abbrev numbers : EventClasses
numbers = record {
  error_class = 1;
  warning_class = 2;
  info_class = 3;
  debug_class = 4;
  trace_class = 5;
  log_class = 6;
  report_class = 7;
  user_class = 32;
}

-- the application's class, which this kernel numbers otherwise
diag_class_of-raise_diag_example :
    (diag_class_of numbers 32 ≡ 16) × (false ≡ false) × (ltb 16 32 ≡ true)
unfolding raise_diag kernel_class_of
diag_class_of-raise_diag_example =
    diag_class_of-raise_diag numbers 16 32 (codes "swept") false raised
      (refl, (refl, (refl, (refl, (refl, (refl, (refl, (refl, tt)))))))) refl refl
