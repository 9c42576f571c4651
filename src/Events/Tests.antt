-- ===== src/Events/Tests.antt =====
-- A handover that reorders one packet behind one.
use emulator_test.Prelude.{
  ℕ, ◌≡◌, refl, List, [], ◌∷◌, ◌++◌, map, keep, leb, none, some, true, false, arith,
}
use emulator_test.Prelude.Int.{pos}
use emulator_test.Worker.{Worker, Packet, dropped, packet, worker_set_mark, run}
use emulator_test.Worker.Drop.{after, done_dropping}
use emulator_test.Worker.Reorder.{accept_all, done_reordering}
use emulator_test.Scheduler.{Event}
use mathlib.Core.List.{Perm, Pairwise}
use mathlib.Core.List.Pairwise
use emulator_test.Scheduler.Order.{IsAfter}
use emulator_test.Scheduler.Unique.{InOrder-not_after}
use emulator_test.Events.Solution.{
  ordered, ordered-Perm, ordered-InOrder, line_events, solution_line,
}
use emulator_test.Events.Phases.{phase, parse_handle_solution-phase}
use emulator_test.Actions.Solution.{ShowsAfter}
use emulator_test.Events.{Act, Link, unsigned, parse_ho, parse_handle_solution}
use emulator_test.Nfqueue.{Netfilter}
use emulator_test.Actions.{Tcp, System, perform_all, save, hist_at}
use emulator_test.Actions.Setters.{IsOpen}
use emulator_test.Events.Handover.{handover_lem}

abbrev worker : Worker
worker = record {
  mark = 1;
  do_reorder = false;
  reorder_count = pos 0;
  reorder_offset = pos 0;
  reorder_ids = [];
  do_drop = false;
  drop_count = pos 0;
  do_rwnd = false;
  tune_rwnd = 0;
  do_burst = false;
  data_rcvd = 0;
  do_adapt = false;
  do_dedup = false;
  last_ack = 0;
}

abbrev plain : ℕ → Packet
plain n = record { id = n; payload = [] }

abbrev losses : List Packet
losses = map plain (2 ∷ 3 ∷ 4 ∷ 5 ∷ 6 ∷ 7 ∷ 8 ∷ 9 ∷ 10 ∷ 11 ∷ [])

abbrev net : Netfilter
net = record {
  opens = λ k. true;
  rcvbufsiz = λ k. 6553600;
  creates = λ k. true;
  sets_mode = λ k. true;
  sets_maxlen = λ k. true;
  starts_thread = λ k. true;
  destroys = λ k. true;
  closes = λ k. true;
  memory_status = λ k. 0;
}

abbrev tcp : Tcp
tcp = record {
  fire = 0;
  wkctx = none;
  mark = pos 0;
  sample_interval = pos 0;
  burst_sample_interval = pos 0;
  threshold = pos 0;
  pace = pos 0;
  enable = false;
  hist_param = [];
}

abbrev system : System
system = record {
  queues = λ k. some (record { queue_num = k; status = 1 });
  workers = λ k. some k;
  memory = λ k. worker;
  next = 255;
  tcp = tcp;
}

system-IsOpen : IsOpen system (unsigned 16 (pos 0)) 0
unfolding unsigned
system-IsOpen = record {
  in_range = refl;
  queue = record { queue_num = 0; status = 1 };
  queue_entry = refl;
  worker_entry = refl;
}

handover_lem_example :
    (es : List (Event Act)) × (s' : System) × (parse_ho []
        (pos 7899)
        (pos 0 ∷ pos 2 ∷ pos 199 ∷ pos 1 ∷ pos 1 ∷ pos 26 ∷ [])
      ≡ some es)
    × (perform_all net es system ≡ some s')
    × (run (s'.memory 0) (
          map packet (plain 1 ∷ losses)
          ++ (packet (plain 12) ∷ packet (plain 13) ∷ packet (plain 14) ∷ []))
        ≡ after (map (λ r. dropped r.id) (plain 1 ∷ losses)) (
            after
              (accept_all (done_dropping (worker_set_mark worker (unsigned 32 (pos 2)))) (13 ∷ [])
                ++ accept_all
                    (done_dropping (worker_set_mark worker (unsigned 32 (pos 2))))
                    (12 ∷ []))
              (run
                (done_reordering (done_dropping (worker_set_mark worker (unsigned 32 (pos 2)))) 0)
                (packet (plain 14) ∷ []))))
handover_lem_example =
    handover_lem net system 0 (pos 7899) (pos 0) (pos 2) (pos 199) (pos 26) (plain 1) losses
      (plain 12) [] (plain 13) [] (packet (plain 14) ∷ []) system-IsOpen refl (omega arith)
      (omega arith)

-- A handover to link 2 at 8000 ms that freezes for 40 ms, drops duplicates for 50 ms and estimates a burst
-- for 30 ms, on a window of 300, at 8075 ms.
abbrev tuned_worker : Worker
tuned_worker = record worker { do_rwnd = true; tune_rwnd = 300; do_adapt = true }

abbrev no_link : Link
no_link = record { mark = pos 0; hist_rw = pos 0; rtt = pos 0 }

abbrev lte : ℕ → Link
lte rw = record { mark = pos 1; hist_rw = pos rw; rtt = pos 60 }

abbrev mmw : Link
mmw = record { mark = pos 2; hist_rw = pos 900; rtt = pos 35 }

abbrev tuned_system : System
tuned_system = record system {
  memory = λ k. tuned_worker;
  tcp = record tcp {
    fire = 0;
    wkctx = some 0;
    mark = pos 1;
    sample_interval = pos 60;
    burst_sample_interval = pos 5;
    hist_param = no_link ∷ lte 250 ∷ mmw ∷ [];
  };
}

tuned_system-IsOpen : IsOpen tuned_system (unsigned 16 (pos 0)) 0
unfolding unsigned
tuned_system-IsOpen = record {
  in_range = refl;
  queue = record { queue_num = 0; status = 1 };
  queue_entry = refl;
  worker_entry = refl;
}

abbrev sorted_line : List (Event Act)
sorted_line = ordered (unsigned 16 (pos 0)) 2 8000 40 50 30

sorted_line-Perm : Perm sorted_line (line_events (pos 0) 2 8000 40 50 29 0 0 0)
sorted_line-Perm = ordered-Perm (unsigned 16 (pos 0)) 2 8000 40 50 30

sorted_line-sorted : Pairwise (λ x y. ¬ IsAfter x y) sorted_line
sorted_line-sorted =
    Pairwise.imp InOrder-not_after
      (ordered-InOrder (unsigned 16 (pos 0)) 2 8000 40 50 30 (omega arith))

abbrev known_links : List Link
known_links = no_link ∷ lte 300 ∷ mmw ∷ []

links_saved : save (pos 1) (pos 300) (no_link ∷ lte 250 ∷ mmw ∷ []) ≡ some known_links
unfolding save
links_saved = refl

mmw_found : hist_at (pos 2) known_links ≡ some mmw
unfolding hist_at
mmw_found = refl

parse_handle_solution-phase_example :
    (parse_handle_solution [] (pos 8000) (solution_line (pos 0) 2 8000 40 50 29 0 0 0)
      ≡ some (line_events (pos 0) 2 8000 40 50 29 0 0 0))
    × ShowsAfter net
        (unsigned 16 (pos 0))
        0
        known_links
        2
        (pos 5)
        (keep (λ e. leb e.time 8075) sorted_line)
        tuned_system
        (phase false (pos 60) (pos 5) (pos 35) 900 true false true)
parse_handle_solution-phase_example =
    parse_handle_solution-phase (λ es. sorted_line) net tuned_system 0 (pos 0) 2 900 299 known_links
      mmw 8000 40 50 29 0 0 0 8075 tuned_system-IsOpen refl links_saved mmw_found refl (omega arith)
      (omega arith) (omega arith) (omega arith) sorted_line-Perm sorted_line-sorted
