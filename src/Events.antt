-- ===== src/Events.antt =====
-- The events of a trace's lines, src/event.c: the functions that add a line's actions to the schedule. The
-- fields of a line are taken as `strtol` reads them, and Line reads them from the text; a field that is
-- missing ends the emulator. A sum of times is taken to fit an `int`.
pub mod Handover
pub mod Solution
pub mod Phases
pub mod Line
mod Tests
use emulator_test.Prelude.{
  ℕ, zero, suc, ◌+◌, ◌-◌, ◌%◌, ◌^◌, List, [], ◌∷◌, Bool, true, false, not, ◌==◌, Option, none, some,
  if◌then◌else◌,
}
use emulator_test.Prelude.Int.{ℤ, pos, negsuc, ◌+ℤ◌, eq_ℤ}
use emulator_test.Text.{Text}
use emulator_test.Worker.{is_positive}
use emulator_test.Scheduler.{Event, scheduler_add_event}

-- `link_parameter`
pub record Link : Type 0 where
  pub mark : ℤ
  pub hist_rw : ℤ
  pub rtt : ℤ

-- `action_init_tcp_sched_args`, with `threshold` and `pace` in hundredths, and `init_param[1]` and
-- `init_param[2]`.
pub record SchedArgs : Type 0 where
  pub enable : Bool
  pub sample_interval : ℤ
  pub threshold : ℤ
  pub pace : ℤ
  pub fire : ℤ
  pub mark : ℤ
  pub first : Link
  pub second : Link

-- A handler of src/action.c with its arguments, the number of its queue first.
pub data Act : Type 0 where
  run_command : Text → Act
  init_nfqueue start_nfqueue stop_nfqueue teardown_nfqueue : ℕ → Act
  set_mark : ℕ → (mark : ℕ) → Act
  set_dedup : ℕ → (enable : Bool) → Act
  set_drop : ℕ → (enable : Bool) → (drop_count : ℤ) → Act
  set_reorder : ℕ → (enable : Bool) → (count offset : ℕ) → Act
  sol_update : ℕ → (mark : ℕ) → Act
  set_rwnd : ℕ → (rwnd : ℕ) → Act
  set_burst : ℕ → (enable : Bool) → Act
  set_adapt : ℕ → (start_time : ℕ) → (enable : Bool) → Act
  init_tcp_sched : ℕ → SchedArgs → Act

-- An `int` in an unsigned field of `w` bits.
unfoldable pub unsigned : ℕ → ℤ → ℕ
unsigned w (pos k) = k % 2 ^ w
unsigned w (negsuc k) = 2 ^ w - 1 - k % 2 ^ w

-- A call of `scheduler_add_event` whose result is not looked at.
add_event : List (Event Act) → ℤ → Act → List (Event Act)
unfolding unsigned
add_event scheduler time_ms h = (scheduler_add_event scheduler (unsigned 64 time_ms) h).0

-- `drop_cnt`, behind the first part that is marked for debugging.
drop_cnt_of : ℤ → ℤ → ℤ
drop_cnt_of reord_cnt drop_cnt = if is_positive reord_cnt then reord_cnt +ℤ pos 10 else drop_cnt

pub parse_ho : List (Event Act) → ℤ → List ℤ → Option (List (Event Act))
unfolding add_event drop_cnt_of unsigned
parse_ho scheduler time_ms (queue ∷ mark ∷ gap_time ∷ reord_cnt ∷ reord_offset ∷ loss ∷ more) =
    let queue_num = unsigned 16 queue in
    let drop_cnt = drop_cnt_of reord_cnt loss in
    let stopped = add_event scheduler time_ms (stop_nfqueue queue_num) in
    let started = add_event stopped (time_ms +ℤ gap_time) (start_nfqueue queue_num) in
    let marked = add_event started time_ms (set_mark queue_num (unsigned 32 mark)) in
    let dropping =
      if is_positive drop_cnt
      then add_event marked time_ms (set_drop queue_num true drop_cnt)
      else marked in
    some (
      if is_positive reord_cnt
      then add_event dropping time_ms
          (set_reorder queue_num true (unsigned 16 reord_cnt) (unsigned 16 reord_offset))
      else dropping)
parse_ho scheduler time_ms fields = none

pub parse_init : List (Event Act) → ℤ → List ℤ → Option (List (Event Act))
unfolding add_event unsigned
parse_init scheduler time_ms (queue ∷ mark ∷ end_ms ∷ more) =
    let queue_num = unsigned 16 queue in
    let ready = add_event scheduler time_ms (init_nfqueue queue_num) in
    let ending = add_event ready end_ms (teardown_nfqueue queue_num) in
    let started = add_event ending time_ms (start_nfqueue queue_num) in
    some (
      if is_positive mark
      then add_event started time_ms (set_mark queue_num (unsigned 32 mark))
      else started)
parse_init scheduler time_ms fields = none

pub parse_handle_dup : List (Event Act) → ℤ → List ℤ → Option (List (Event Act))
unfolding add_event unsigned
parse_handle_dup scheduler time_ms (queue ∷ enable ∷ more) =
    some (add_event scheduler time_ms (set_dedup (unsigned 16 queue) (not (eq_ℤ enable (pos 0)))))
parse_handle_dup scheduler time_ms fields = none

pub parse_cmd : List (Event Act) → ℤ → Text → List (Event Act)
unfolding add_event
parse_cmd scheduler time_ms command = add_event scheduler time_ms (run_command command)

-- One round of the loop for the two links, on the fields that are left.
link_param : List ℤ → Option (Link × List ℤ)
link_param (mark ∷ hist_rw ∷ rtt ∷ more) =
    some (record { mark = mark; hist_rw = hist_rw; rtt = rtt }, more)
link_param fields = none

pub parse_init_sched : List (Event Act) → ℤ → List ℤ → Option (List (Event Act))
unfolding add_event unsigned link_param
parse_init_sched scheduler time_ms
      (queue ∷ enable_rw ∷ sample_interval ∷ threshold ∷ pace ∷ start_time ∷ params) =
    elim (link_param params) [
      | none ↦ none
      | some (first, more) ↦ elim (link_param more) [
        | none ↦ none
        | some (second, _) ↦ some (
            add_event scheduler time_ms (
              init_tcp_sched (unsigned 16 queue) (record {
                enable = not (eq_ℤ enable_rw (pos 0));
                sample_interval = sample_interval;
                threshold = threshold;
                pace = pace;
                fire = start_time;
                mark = pos 1;
                first = first;
                second = second;
              })))
      ]
    ]
parse_init_sched scheduler time_ms fields = none

-- `if (enable > 0) scheduler_add_event(...)`
add_if : ℤ → ℤ → Act → List (Event Act) → List (Event Act)
unfolding add_event
add_if enable time_ms h scheduler =
    if is_positive enable then add_event scheduler time_ms h else scheduler

pub parse_handle_solution : List (Event Act) → ℤ → List ℤ → Option (List (Event Act))
unfolding add_event add_if unsigned
parse_handle_solution scheduler time_ms
      (queue ∷ mark ∷ enable_freeze ∷ freeze_ms ∷ enable_dedup ∷ smooth_ms ∷ burst_duration
        ∷ enable_adapt ∷ more) =
    let queue_num = unsigned 16 queue in
    let updated = add_event scheduler time_ms (sol_update queue_num (unsigned 32 mark)) in
    let frozen = add_if enable_freeze time_ms (set_rwnd queue_num (unsigned 16 mark)) updated in
    let thawed_ms = time_ms +ℤ freeze_ms in
    let deduped = add_if enable_dedup thawed_ms (set_dedup queue_num true) frozen in
    let smoothed =
      add_if enable_dedup (thawed_ms +ℤ smooth_ms) (set_dedup queue_num false) deduped in
    let burst_ms = thawed_ms +ℤ burst_duration in
    let bursting = add_if burst_duration thawed_ms (set_burst queue_num true) smoothed in
    let burst = add_if burst_duration burst_ms (set_burst queue_num false) bursting in
    some (add_if enable_adapt burst_ms (set_adapt queue_num (unsigned 64 burst_ms) true) burst)
parse_handle_solution scheduler time_ms fields = none
