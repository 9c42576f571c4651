-- ===== src/Worker/Tests.antt =====
-- A worker at a few packets.
use emulator_test.Prelude.{ℕ, ◌+◌, ◌≡◌, ◌⊎◌, refl, List, [], ◌∷◌, ◌++◌, map, true, false, arith}
use mathlib.Core.List.{Perm}
use emulator_test.Prelude.Int.{pos}
use emulator_test.Worker.{
  Worker, Packet, Verdict, dropped, accepted, rewritten, Input, packet, set_mark, set_reorder,
  set_drop, worker_init_ctx, worker_set_reorder, worker_set_dedup, worker_init_tcp_sched,
  worker_set_rwnd, count_data, ack_number, window, has_headers, is_ack_only, worker_callback, run,
}
use emulator_test.Worker.Drop.{after}
use emulator_test.Worker.Reorder.{done_reordering, run-worker_set_reorder}
use emulator_test.Worker.Queue.{IsBounded, IsWaiting, room_needed, id_of}
use emulator_test.Worker.Held.{packet_ids, are_careful, run-IsBounded, run-answered}
use emulator_test.Worker.Ack.{
  IsSegment, IsStream, Counted, sent_window, is_duplicate, min, total, inputs_of,
  worker_callback-window, run-data_rcvd,
}

-- Memory that holds a worker's last state.
abbrev memory : Worker
memory = record {
  mark = 9;
  do_reorder = true;
  reorder_count = pos 3;
  reorder_offset = pos 0;
  reorder_ids = [];
  do_drop = true;
  drop_count = pos 5;
  do_rwnd = false;
  tune_rwnd = 0;
  do_burst = false;
  data_rcvd = 0;
  do_adapt = false;
  do_dedup = true;
  last_ack = 4294967290;
}

abbrev fresh : Worker
fresh = worker_init_ctx memory

abbrev plain : ℕ → Packet
plain n = record { id = n; payload = [] }

-- A segment of 40 bytes and some data: its acknowledgement's last byte and the three before it, and its
-- window.
abbrev segment : ℕ → (ack3 ack2 ack1 ack0 : ℕ) → (window1 window0 : ℕ) → List ℕ → Packet
segment n a b c d v w rest = record {
  id = n;
  payload =
      (69 ∷ 0 ∷ 0 ∷ 0 ∷ 0 ∷ 0 ∷ 0 ∷ 0 ∷ 0 ∷ 0 ∷ 0 ∷ 0 ∷ 0 ∷ 0 ∷ 0 ∷ 0 ∷ 0 ∷ 0 ∷ 0 ∷ 0 ∷ 0 ∷ 0 ∷ 0
        ∷ 0 ∷ 0 ∷ 0 ∷ 0 ∷ 0 ∷ a ∷ b ∷ c ∷ d ∷ [])
      ++ (80 ∷ 0 ∷ v ∷ w ∷ 0 ∷ 0 ∷ 0 ∷ 0 ∷ [])
      ++ rest;
}

-- Two packets behind three, and the mark.
reorders :
    (run (worker_set_reorder fresh true 2 3) (
      set_mark 4
      ∷ packet (plain 1)
      ∷ packet (plain 2)
      ∷ packet (plain 3)
      ∷ packet (plain 4)
      ∷ packet (plain 5)
      ∷ packet (plain 6)
      ∷ [])).1
    ≡ accepted 3 4 ∷ accepted 4 4 ∷ accepted 5 4 ∷ accepted 2 4 ∷ accepted 1 4 ∷ accepted 6 4 ∷ []
unfolding run worker_init_ctx worker_set_reorder worker_callback
reorders = refl

-- A packet is not answered when a worker is to reorder none behind none.
never_answered : (run fresh (set_reorder true 0 0 ∷ packet (plain 1) ∷ [])).1 ≡ []
unfolding run worker_init_ctx worker_callback
never_answered = refl

run-worker_set_reorder_example :
    run
      (worker_set_reorder fresh true 1 2)
      (packet (plain 1) ∷ packet (plain 2) ∷ packet (plain 3) ∷ packet (plain 4) ∷ [])
    ≡ after
        (accepted 2 0 ∷ accepted 3 0 ∷ accepted 1 0 ∷ [])
        (run (done_reordering fresh 1) (packet (plain 4) ∷ []))
unfolding worker_init_ctx
run-worker_set_reorder_example =
    run-worker_set_reorder fresh refl (plain 1 ∷ []) (plain 2) (plain 3 ∷ [])
      (packet (plain 4) ∷ []) (omega arith) (omega arith)

fresh-IsBounded : IsBounded fresh
unfolding IsBounded worker_init_ctx room_needed
fresh-IsBounded = omega arith

fresh-IsWaiting : IsWaiting fresh
unfolding IsWaiting worker_init_ctx
fresh-IsWaiting = refl

-- More than 1000 are asked for, twice.
abbrev asks_again : List Input
asks_again =
    set_reorder true 2000 5
    ∷ packet (plain 1)
    ∷ packet (plain 2)
    ∷ set_reorder true 3000 2
    ∷ packet (plain 3)
    ∷ []

run-IsBounded_example : IsBounded (run fresh asks_again).0
run-IsBounded_example = run-IsBounded fresh asks_again fresh-IsBounded

abbrev careful_inputs : List Input
careful_inputs =
    set_drop true (pos 1)
    ∷ packet (plain 1)
    ∷ set_reorder true 2 1
    ∷ packet (plain 2)
    ∷ packet (plain 3)
    ∷ packet (plain 4)
    ∷ set_reorder true 1 1
    ∷ packet (plain 5)
    ∷ []

fresh-careful : are_careful fresh careful_inputs ≡ true
unfolding are_careful worker_init_ctx run worker_callback
fresh-careful = refl

run-answered_example :
    Perm
      (map id_of (run fresh careful_inputs).1 ++ (run fresh careful_inputs).0.reorder_ids)
      (fresh.reorder_ids ++ packet_ids careful_inputs)
run-answered_example = run-answered fresh careful_inputs fresh-careful fresh-IsWaiting

-- The acknowledgement number passes 2^32 between the first two segments; the third has data and the
-- last one has none.
abbrev tuning : Worker
tuning = worker_set_rwnd (worker_set_dedup (worker_init_tcp_sched fresh true) true) 100

abbrev segments : List (ℕ × Packet)
segments =
    (4, segment 1 255 255 255 254 1 0 [])
    ∷ (6, segment 2 0 0 0 4 0 50 [])
    ∷ (0, segment 3 0 0 0 4 1 0 (7 ∷ []))
    ∷ (0, segment 4 0 0 0 4 1 0 [])
    ∷ []

tunes_window :
    (run tuning (inputs_of segments)).1
    ≡ rewritten 1 0 100 ∷ accepted 2 0 ∷ rewritten 3 0 100 ∷ dropped 4 ∷ []
unfolding run worker_callback worker_init_ctx worker_set_rwnd worker_set_dedup worker_init_tcp_sched
    inputs_of has_headers ack_number window is_ack_only
tunes_window = refl

abbrev first_segment : Packet
first_segment = segment 1 255 255 255 254 1 0 []

worker_callback-window_example :
    ((is_duplicate tuning first_segment ≡ true)
      × (worker_callback tuning first_segment ≡ (tuning, dropped 1 ∷ [])))
    ⊎ ((is_duplicate tuning first_segment ≡ false)
        × (v : Verdict) × (worker_callback tuning first_segment
            ≡ (count_data tuning (ack_number first_segment.payload), v ∷ []))
        × (sent_window first_segment v ≡ min tuning.tune_rwnd (window first_segment.payload)))
unfolding worker_init_ctx worker_set_rwnd worker_set_dedup worker_init_tcp_sched has_headers
    IsSegment
worker_callback-window_example = worker_callback-window tuning first_segment refl refl refl refl

run-data_rcvd_example :
    Counted (run tuning (inputs_of segments)).0 (4294967290 + total segments) (0 + total segments)
unfolding worker_init_ctx worker_set_rwnd worker_set_dedup worker_init_tcp_sched has_headers
    IsSegment IsStream Counted ack_number
run-data_rcvd_example =
    run-data_rcvd tuning 4294967290 0 segments
      (
        omega arith,
        refl,
        refl,
        (omega arith, refl, refl, (omega arith, refl, refl, (omega arith, refl, refl, tt))),
      )
      (refl, refl, refl, refl, refl)
