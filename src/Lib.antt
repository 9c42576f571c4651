-- ===== src/Lib.antt =====
-- The 5G handover emulator: the packet worker and the event schedule of the emulator itself (src/), and
-- the Python scripts that prepare its traces and read back what a run leaves behind (scripts/).
--
-- A run replays a trace (input/*.csv) of handovers. The emulator turns the trace into events
-- (src/event.c), which src/scheduler.c runs in order of time between the ticks of the TCP solution; the
-- events set the workers (src/worker.c), which drop, hold, reorder and rewrite the packets of a
-- netfilter queue. scripts/run/generate_input.py appends the commands that start iperf3 and the socket
-- monitor to a trace. After the run scripts/processing/ holds the scripts that read the iperf3 log, the
-- emulator's packet log and the `ss` log, relate them to the handovers of the trace and plot them.
--
-- Files of the emulator. Worker: the state `worker_ctx`, the four handlers and `worker_callback`, and the
-- functions that set a worker; a step takes a packet or such a call, and the verdicts are its output.
-- Each function holds the lock of what it reads, so that it is one step, and a run is a list of steps in
-- the order of the locks. Scheduler: `scheduler_add_event`, `scheduler_compare_event` and `scheduler_run`,
-- with `qsort` and what a handler does to the ticks as arguments. Events: the functions of src/event.c that
-- add a line's actions to the schedule, with Events.Line for the text of a line and the loop of
-- src/emulator.c over the lines. Actions: src/action.c on the workers at their addresses and on the TCP
-- solution, whose tick is `tcp_schedule`; it joins Events, Worker and Nfqueue. Nfqueue: the state of a
-- queue and its thread, src/nfqueue.c.
--
-- Files of the scripts. Prelude: lists, tests, Python's exceptions as results, integers. Number: Python's
-- numbers, as an interface with the operations that the scripts use (values are floats), its laws away
-- from NaN, and whole numbers as an instance. Text: what the scripts use of `str`. Iperf:
-- `parse_iperf3_log`, `filter_time_range` and the printed average (metrics.py, parse-logs.py). Trace:
-- `parse_trace`. Handover: `filter_ho_types`, `filter_link_duration` and the samples of each link.
-- Closest: `find_closest_indices` and `find_closest_values`. Rampup: `calculate_rampup_time`. Summary:
-- `calculate_ho_thuput`, and the main block of metrics.py up to the parts behind `if False`, which joins
-- Iperf, Trace and Handover; what it prints, draws and saves before an exception is left out.
-- Series: `read_iperf` and `set_df_range` of util.py. PacketLog: `process_server_log` (parse-logs.py)
-- and `parse_serverts` (rfc-jitter.py). Matching: `map_packets`. Frames: `estimate_frame` and
-- `check_rollover`. Jitter: `calculate_jitter`, `compute_jitter_and_transit` and compute-iat.py. Transit:
-- `calculate_transit` and the packets in the main block of parse-logs.py, which joins Frames, PacketLog
-- and Jitter. Ss: the parsers of the `ss` log in parse-logs.py and parse_ss.py, and main of the latter.
-- Plotting, Plot, Panels and Loss: plotting.py, plot.py, plot-logs.py and plot_loss.py, with a figure as a
-- value and what is printed, saved and shown as a list. Generate: `generate_trace` of
-- scripts/run/generate_input.py. Commands: `mod_cmd` and `write_to_new_file` of input/old_fix.py. A module's children hold its theorems, and its module Tests
-- runs and instances.
--
-- Every loop is a structural recursion on the list that it walks; the `while` loop of the ramp-up time
-- walks the samples that are left. `str(n)` divides by ten on fuel n + 1, which Text.Decimal shows to be
-- enough. The loop of `scheduler_run` is on fuel, of which Scheduler.Loop gives enough: one round for each
-- event and for each tick in front of it, of which there are at most as many as the last time. Files, JSON
-- and pandas are outside: the functions take what these libraries return, or take a library's function as
-- an argument (sorting, rounding, `float` of a text, `int` of a float). Texts are
-- ASCII. Every exception is a value, so that the theorems say which inputs raise.
--
-- Machine integers of the emulator keep their width: 16 bits for a window and a count, 32 for an
-- acknowledgement, 64 for the data received and the time of a tick. An `int` counter that goes down is
-- taken to stay above its least value.
--
-- A `long` has 64 bits where a field is read, and sums of an event's times are taken to fit an `int`. The
-- loop over a trace's lines is on the characters that are left, of which each round reads one.
--
-- Not modelled: what netfilter and pthread do, the emulator's log and start, the capture reader, what the csv
-- writer writes, the style of the figures, the command lines, the disabled branches of the main blocks and
-- the shell scripts.
pub mod Prelude
pub mod Number
pub mod Text
pub mod Iperf
pub mod Trace
pub mod Handover
pub mod Closest
pub mod Rampup
pub mod PacketLog
pub mod Jitter
pub mod Matching
pub mod Frames
pub mod Ss
pub mod Commands
pub mod Generate
pub mod Summary
pub mod Series
pub mod Worker
pub mod Events
pub mod Loss
pub mod Panels
pub mod Transit
pub mod Plotting
pub mod Plot
pub mod Scheduler
pub mod Nfqueue
pub mod Actions
