-- ===== src/Actions/Tests.antt =====
-- A system with one queue that is tuned, a tick and a packet behind it.
use emulator_test.Prelude.{ℕ, ◌%◌, ◌^◌, ◌<◌, ◌≡◌, refl, [], ◌∷◌, some, true, false, arith}
use emulator_test.Prelude.Int.{ℤ, pos, pos_part, ◌*ℤ◌, quotient}
use emulator_test.Number.{whole_number}
use emulator_test.Worker.{Worker, Packet, worker_callback}
use emulator_test.Nfqueue.{Netfilter}
use emulator_test.Events.{Link, sol_update}
use emulator_test.Actions.{System, Conversion, with_worker, hist_at, tuned, tcp_schedule}
use emulator_test.Actions.Sound.{IsSound, Fits, Goes}
use emulator_test.Actions.Runs.{Runs, here, ticks, arrives, Runs-Goes}

abbrev worker : Worker
worker = record {
  mark = 1;
  do_reorder = false;
  reorder_count = pos 0;
  reorder_offset = pos 0;
  reorder_ids = [];
  do_drop = false;
  drop_count = pos 0;
  do_rwnd = true;
  tune_rwnd = 300;
  do_burst = true;
  data_rcvd = 90000;
  do_adapt = false;
  do_dedup = false;
  last_ack = 0;
}

abbrev net : Netfilter
net = record {
  opens = λ k. true;
  rcvbufsiz = λ k. 6553600;
  creates = λ k. true;
  sets_mode = λ k. true;
  sets_maxlen = λ k. true;
  starts_thread = λ k. true;
  destroys = λ k. true;
  closes = λ k. true;
  memory_status = λ k. 0;
}

abbrev link : ℕ → Link
link rw = record { mark = pos 1; hist_rw = pos rw; rtt = pos 60 }

abbrev system : System
system = record {
  queues = λ k. some (record { queue_num = k; status = 1 });
  workers = λ k. some 0;
  memory = λ k. worker;
  next = 1;
  tcp = record {
    fire = 0;
    wkctx = some 0;
    mark = pos 1;
    sample_interval = pos 5;
    burst_sample_interval = pos 5;
    threshold = pos 90;
    pace = pos 2;
    enable = true;
    hist_param = link 0 ∷ link 300 ∷ link 900 ∷ [];
  };
}

-- Whole numbers for doubles: cut off at every step.
abbrev whole : Conversion ℤ
whole = record { to_float = λ x. x; to_int = λ x. x; to_u16 = λ x. pos_part x % 2 ^ 16 }

whole_narrow : (x : ℤ) → whole.to_u16 x < 2 ^ 16
whole_narrow x = omega arith

system-IsSound : IsSound system
system-IsSound = record {
  typed = λ j. omega arith;
  allocated = λ k a e. ground arith;
  tuned_worker = (0, refl, omega arith);
  links = (link 0, link 300, link 900, refl);
  link_mark = (1, refl, omega arith);
}

abbrev ticked : System
ticked =
    with_worker 0 (λ w. record w { tune_rwnd = tuned whole system.tcp (link 300) w; data_rcvd = 0 })
      system

tick_done : tcp_schedule whole system ≡ some ticked
unfolding tcp_schedule hist_at
tick_done = refl

-- 90000 bytes in a twelfth of the link's round trip.
ticked_window : (ticked.memory 0).tune_rwnd ≡ 1054
unfolding with_worker tuned ◌*ℤ◌ quotient
ticked_window = refl

abbrev plain : Packet
plain = record { id = 7; payload = [] }

abbrev reached : System
reached = with_worker 0 (λ w. (worker_callback w plain).0) ticked

reached_run : Runs whole net system reached
reached_run = arrives 0 plain (ticks here tick_done)

reached-Fits : Fits net reached (sol_update 0 2)
unfolding with_worker
reached-Fits = (
  (
    0,
    record {
      in_range = refl;
      queue = record { queue_num = 0; status = 1 };
      queue_entry = refl;
      worker_entry = refl;
    },
  ),
  omega arith,
)

Runs-Goes_example :
    IsSound reached
    × Goes net (sol_update 0 2) reached
    × ((u : System) × (tcp_schedule whole reached ≡ some u) × IsSound u)
Runs-Goes_example =
    Runs-Goes whole whole_narrow net system reached (sol_update 0 2) system-IsSound reached_run
      reached-Fits
