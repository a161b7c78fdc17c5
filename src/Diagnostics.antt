-- ===== src/Diagnostics.antt =====
-- The diagnostics slot of a network, as the threads of the process share it: DeliverDiag, SetDiagSink,
-- SetDiagMask, GetDiagMask, RaiseDiag and the classes of src/FacadeNetwork.cpp.
--
-- Nothing here is under a lock, so each read or interlocked write of a shared field is a step, and a
-- step of another thread may come between any two of them. A sink is a number that stands for its
-- pointer. A thread that is called back and raises an event is turned away at once, so that event
-- makes no step.
pub mod Unregister
pub mod Severity
pub mod Delivered
use target_facade.Base.{
  ℕ, zero, suc, ◌+◌, ◌-◌, ◌/◌, ◌%◌, ◌^◌, Bool, true, false, not, ◌&&◌, ◌||◌, List, [], ◌∷◌, Option,
  none, some, ltb, is_some, ◌==◌, if◌then◌else◌,
}
use target_facade.Status.{HResult, s_ok, s_false, e_invalid_arg, e_pointer, e_fail}
use target_facade.Base.Text.{WString, is_empty}

-- The kernel's numbers for the classes of an event.
pub record EventClasses : Type 0 where
  pub error_class : ℕ
  pub warning_class : ℕ
  pub info_class : ℕ
  pub debug_class : ℕ
  pub trace_class : ℕ
  pub log_class : ℕ
  pub report_class : ℕ
  pub user_class : ℕ

abbrev pub diag_app : ℕ
diag_app = 16

unfoldable pub diag_class_of : EventClasses → ℕ → ℕ
diag_class_of k e =
    if e == k.error_class
    then 1
    else if e == k.warning_class
    then 2
    else if e == k.info_class
    then 3
    else if e == k.debug_class
    then 4
    else if e == k.trace_class
    then 5
    else if e == k.log_class
    then 6
    else if e == k.report_class
    then 7
    else if e == k.user_class
    then diag_app
    else e

unfoldable pub kernel_class_of : EventClasses → ℕ → ℕ
kernel_class_of k severity =
    if severity == 1
    then k.error_class
    else if severity == 2
    then k.warning_class
    else if severity == 3
    then k.info_class
    else if severity == 4
    then k.debug_class
    else if severity == 5
    then k.trace_class
    else if severity == 6
    then k.log_class
    else if severity == 7
    then k.report_class
    else if severity == diag_app
    then k.user_class
    else severity

-- What becomes of an event that RaiseDiag makes: none is made, the kernel throws, or it is raised.
pub data Making : Type 0 where
  not_made raise_threw raised : Making

unfoldable pub made : Making → HResult
made not_made = e_fail
made raise_threw = e_fail
made raised = s_ok

-- RaiseDiag on a thread that is in a delivery or not, with the class that it asks the kernel for, none
-- where it asks for nothing.
unfoldable pub raise_diag : EventClasses → ℕ → Option WString → Bool → Making → HResult × Option ℕ
raise_diag k severity none inside r = (e_invalid_arg, none)
raise_diag k severity (some text) inside r =
    if is_empty text || ltb 31 severity
    then (e_invalid_arg, none)
    else if inside
    then (s_false, none)
    else (made r, some (kernel_class_of k severity))

-- What the threads share.
pub record DiagSlot : Type 0 where
  pub sink : Option ℕ
  pub mask : ℕ
  -- m_lDiagHeld: this network has the kernel's slot
  pub held : Bool
  pub busy : ℕ
  pub serial : ℕ

-- How far a thread is with DeliverDiag, with the serial of its event and the sink that it has read.
pub data Phase : Type 0 where
  idle : Phase
  numbered : ℕ → Phase
  counted : ℕ → Phase
  sink_read : ℕ → Option ℕ → Phase
  calling : ℕ → ℕ → Phase
  leaving : Phase

unfoldable pub is_wanted : Option ℕ → ℕ → Bool
is_wanted none mask = false
is_wanted (some severity) mask = ltb severity 32 && mask / 2 ^ severity % 2 == 1

-- The next step of a thread, by the severity of its event, which is none where reading it throws.
unfoldable pub deliver : Option ℕ → Phase → DiagSlot → Phase × DiagSlot
deliver severity idle d = let n = (d.serial + 1) % 2 ^ 32 in (numbered n, record d { serial = n })
deliver severity (numbered n) d = (counted n, record d { busy = d.busy + 1 })
deliver severity (counted n) d = (sink_read n d.sink, d)
deliver severity (sink_read n none) d = (leaving, d)
deliver severity (sink_read n (some s)) d =
    (if is_wanted severity d.mask then calling n s else leaving, d)
deliver severity (calling n s) d = (leaving, d)
deliver severity leaving d = (idle, record d { busy = d.busy - 1 })

pub record Delivering : Type 0 where
  pub slot : DiagSlot
  pub threads : List Phase

-- the step of the thread at an index
unfoldable pub deliver_at : ℕ → Option ℕ → List Phase → DiagSlot → List Phase × DiagSlot
deliver_at i severity [] d = ([], d)
deliver_at zero severity (t ∷ ts) d = let r = deliver severity t d in (r.0 ∷ ts, r.1)
deliver_at (suc i) severity (t ∷ ts) d = let r = deliver_at i severity ts d in (t ∷ r.0, r.1)

abbrev pub is_reserved_mask : ℕ → Bool
is_reserved_mask mask = mask / 2 ^ 31 % 2 == 1

abbrev pub set_mask : ℕ → DiagSlot → DiagSlot
set_mask mask d = record d { mask = mask }

unfoldable pub set_diag_mask : ℕ → DiagSlot → HResult × DiagSlot
set_diag_mask mask d =
    if is_reserved_mask mask
    then (e_invalid_arg, d)
    else (if is_some d.sink then s_ok else s_false, set_mask mask d)

unfoldable pub get_diag_mask : Bool → DiagSlot → HResult × Option ℕ
get_diag_mask has_out d =
    if not has_out then (e_pointer, none) else (s_ok, some (if is_some d.sink then d.mask else 0))

-- What other threads do: an event goes on, or a client sets the mask.
pub data Move : Type 0 where
  delivers : ℕ → Option ℕ → Move
  masks : ℕ → Move

unfoldable pub move : Move → Delivering → Delivering
move (delivers i severity) w =
    let r = deliver_at i severity w.threads w.slot in record { slot = r.1; threads = r.0 }
move (masks mask) w = record w { slot = (set_diag_mask mask w.slot).1 }

unfoldable pub moves : List Move → Delivering → Delivering
moves [] w = w
moves (m ∷ ms) w = moves ms (move m w)

abbrev pub quiesce_slices : ℕ
quiesce_slices = 200

-- The wait of SetDiagSink, by the moves of each slice, with whether it has seen the slot quiet.
unfoldable pub quiesce : ℕ → (ℕ → List Move) → Delivering → Bool × Delivering
quiesce zero slept w = (false, w)
quiesce (suc n) slept w =
    let rest = quiesce n slept (moves (slept n) w) in if w.slot.busy == 0 then (true, w) else rest

-- SetDiagSink, by whether its caller is in a delivery itself and by what other threads do between its
-- steps: behind the mask, behind the sink, and in each slice of the wait. It yields its result,
-- whether its wait has seen the slot quiet, and the state behind it.
pub record Meanwhile : Type 0 where
  pub behind_mask : List Move
  pub behind_sink : List Move
  pub behind_slot : List Move
  pub slept : ℕ → List Move

abbrev pub put_sink : Option ℕ → Delivering → Delivering
put_sink sink w = record w { slot = record w.slot { sink = sink } }

abbrev pub put_held : Bool → Delivering → Delivering
put_held held w = record w { slot = record w.slot { held = held } }

unfoldable pub set_diag_sink :
    Option ℕ → ℕ → Bool → Meanwhile → Delivering → HResult × Bool × Delivering
set_diag_sink sink mask inside m w =
    let masked = moves m.behind_mask (record w { slot = set_mask mask w.slot }) in
    let put = moves m.behind_sink (put_sink sink masked) in
    let taken = moves m.behind_slot (put_held (is_some sink) put) in
    let waited = quiesce quiesce_slices m.slept taken in
    if is_reserved_mask mask
    then (e_invalid_arg, false, w)
    else if is_some sink || inside
    then (s_ok, false, taken)
    else (s_ok, waited.0, waited.1)
