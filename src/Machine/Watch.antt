-- ===== src/Machine/Watch.antt =====
-- What stops the machine: `HandleBusAccess`, `HandleVMAccess`, `onCpuException` and
-- `onCpuStatusChanged` of uriscv/machine.cc.
pub mod Matching
use uriscv.Prelude.{
  ℕ, Bool, true, false, not, ◌&&◌, ◌||◌, List, [], ◌∷◌, Option, none, some, ltb, ◌==◌,
  if◌then◌else◌, bit_and, bit_or, update,
}
use uriscv.Outcome.{Outcome, runs, exits, undefined, ◌>>=◌}
use uriscv.Processor.Constants.{access_read, access_write, access_exec}
use uriscv.Processor.State.{
  Processor, Signal, Status, status_changed, exception, tlb_changed, vm_access, bus_access, idle,
  status_eq,
}
use uriscv.Stop.{Stoppoint, StoppointSet, probe}

abbrev pub sc_breakpoint : ℕ
sc_breakpoint = 0x2

abbrev pub sc_suspect : ℕ
sc_suspect = 0x4

abbrev pub sc_exception : ℕ
sc_exception = 0x8

abbrev pub sc_utlb_kernel : ℕ
sc_utlb_kernel = 0x10

abbrev pub sc_utlb_user : ℕ
sc_utlb_user = 0x20

abbrev pub maxasid : ℕ
maxasid = 64

abbrev pub utlblexception : ℕ
utlblexception = 3

abbrev pub utlbsexception : ℕ
utlbsexception = 5

pub record ProcessorData : Type 0 where
  pub stop_cause : ℕ
  pub breakpoint_id : ℕ
  pub suspect_id : ℕ

-- The fields of the machine that observers of its processors and its bus change or read.
pub record StopState : Type 0 where
  pub stop_mask : ℕ
  pub pd : ℕ → ProcessorData
  pub stop_requested : Bool
  pub pause_requested : Bool
  pub breakpoints : Option StoppointSet
  pub suspects : Option StoppointSet
  pub tracepoints : Option StoppointSet

abbrev pub has : ℕ → ℕ → Bool
has mask bits = not (bit_and mask bits == 0)

-- A probe of a set that need not be there.
unfoldable pub probe_in : Option StoppointSet → ℕ → ℕ → ℕ → Outcome (Option Stoppoint)
probe_in none asid addr mode = runs none
probe_in (some s) asid addr mode = do
  hit ← probe s asid addr mode
  runs (elim hit [ none ↦ none | some (i, p) ↦ some p ])

-- `|=` on the cause of a processor's stop, and the request to stop.
unfoldable pub stopped_by : StopState → ℕ → ℕ → StopState
stopped_by w id cause = record w {
  pd = update w.pd id (record (w.pd id) { stop_cause = bit_or (w.pd id).stop_cause cause });
  stop_requested = true;
}

-- A hit is kept for its processor; where the source has NULL in its place, it is read through NULL.
unfoldable pub suspected : StopState → Option ℕ → Stoppoint → Outcome StopState
unfolding stopped_by
suspected w none p = undefined
suspected w (some id) p =
    let v = stopped_by w id sc_suspect in
    runs (record v { pd = update v.pd id (record (v.pd id) { suspect_id = p.id }) })

unfoldable pub broken : StopState → Option ℕ → Stoppoint → Outcome StopState
unfolding stopped_by
broken w none p = undefined
broken w (some id) p =
    let v = stopped_by w id sc_breakpoint in
    runs (record v { pd = update v.pd id (record (v.pd id) { breakpoint_id = p.id }) })

-- The switch that both handlers have on the kind of access.
unfoldable pub handle_vm_access : StopState → ℕ → ℕ → ℕ → Option ℕ → Outcome StopState
unfolding probe_in suspected broken
handle_vm_access w asid addr access cpu =
    let suspect = (do
      hit ← probe_in w.suspects asid addr access
      elim hit [ none ↦ runs w | some p ↦ suspected w cpu p ]) in
    let break = (do
      hit ← probe_in w.breakpoints asid addr access
      elim hit [ none ↦ runs w | some p ↦ broken w cpu p ]) in
    if access == access_read || access == access_write
    then if has w.stop_mask sc_suspect then suspect else runs w
    else if access == access_exec
    then if has w.stop_mask sc_breakpoint then break else runs w
    else exits

-- Traced ranges are probed, and the answer is dropped.
unfoldable pub handle_bus_access : StopState → ℕ → ℕ → Option ℕ → Outcome StopState
unfolding handle_vm_access probe_in
handle_bus_access w addr access cpu = do
  v ← handle_vm_access w maxasid addr access cpu
  let traced = (do p ← probe_in v.tracepoints maxasid addr access; runs v)
  (if access == access_write then traced else runs v)

-- With the mode of the processor at the signal.
unfoldable pub on_cpu_exception : StopState → ℕ → ℕ → ℕ → StopState
unfolding stopped_by
on_cpu_exception w id exc_code mode =
    let utlb_exc = exc_code == utlblexception || exc_code == utlbsexception in
    if has w.stop_mask sc_exception && not utlb_exc
      || has w.stop_mask sc_utlb_user && utlb_exc && mode == 0
      || has w.stop_mask sc_utlb_kernel && utlb_exc && mode == 3
    then stopped_by w id sc_exception
    else w

-- A processor that goes to sleep pauses the machine.
unfoldable pub on_cpu_status_changed : StopState → Status → StopState
on_cpu_status_changed w s = if status_eq s idle then record w { pause_requested = true } else w

unfoldable pub observe : StopState → ℕ → Signal → Outcome StopState
unfolding on_cpu_exception on_cpu_status_changed handle_vm_access handle_bus_access
observe w id (status_changed s) = runs (on_cpu_status_changed w s)
observe w id (exception exc_code mode) = runs (on_cpu_exception w id exc_code mode)
observe w id (tlb_changed index) = runs w
observe w id (vm_access asid addr access) = handle_vm_access w asid addr access (some id)
observe w id (bus_access addr access) = handle_bus_access w addr access (some id)

-- The latest signal stands first.
unfoldable pub observe_all : StopState → ℕ → List Signal → Outcome StopState
unfolding observe
observe_all w id [] = runs w
observe_all w id (s ∷ ss) = do v ← observe_all w id ss; observe v id s

-- A write that the bus makes for itself, with no processor.
unfoldable pub notify_write : StopState → ℕ → Outcome StopState
unfolding handle_bus_access
notify_write w addr = handle_bus_access w addr access_write none

-- At the start of `step`.
unfoldable pub cleared : ℕ → StopState → StopState
cleared n w = record w {
  pd = λ id. if ltb id n then record (w.pd id) { stop_cause = 0 } else w.pd id;
  stop_requested = false;
  pause_requested = false;
}
