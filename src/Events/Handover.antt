-- ===== src/Events/Handover.antt =====
-- What a handover of the trace does to the packets of its queue.
use emulator_test.Prelude.{
  ℕ, suc, ◌+◌, ◌-◌, leb, ◌%◌, ◌^◌, ◌≤◌, ◌<◌, ◌≡◌, refl, ap, ◌∙◌, List, [], ◌∷◌, ◌++◌, map, length,
  reverse, true, some, arith,
}
use emulator_test.Prelude.Int.{ℤ, pos, ◌+ℤ◌, sub_ℕ}
use emulator_test.Worker.{
  Worker, Packet, dropped, Input, packet, is_positive, worker_set_mark, worker_set_drop,
  worker_set_reorder, run,
}
use emulator_test.Worker.Drop.{after, done_dropping, run-worker_set_drop}
use emulator_test.Worker.Reorder.{ids, accept_all, done_reordering, run-worker_set_reorder}
use emulator_test.Scheduler.{Event, scheduler_add_event}
use emulator_test.Events.{
  Act, stop_nfqueue, start_nfqueue, set_mark, set_drop, set_reorder, unsigned, add_event,
  drop_cnt_of, parse_ho,
}
use emulator_test.Nfqueue.{Netfilter, nfq_start, nfq_stop}
use emulator_test.Actions.{System, with_worker, perform, perform_all}
use emulator_test.Actions.Setters.{
  IsOpen, with_queue, with_queue-IsOpen, with_worker-IsOpen, Reaches, Reaches-nil, Reaches-setter,
  Reaches-queue, action_stop_nfqueue_lem, action_start_nfqueue_lem,
}

sum_pos : (n : ℕ) → pos (suc n) +ℤ pos 10 ≡ pos (suc (n + 10))
unfolding ◌+ℤ◌
sum_pos n =
    let reads : leb 0 (suc n + 10) ≡ true = ground arith in
    let same : suc n + 10 - 0 ≡ suc (n + 10) = omega arith in rw (reads, sub_ℕ) (ap pos same)

positive_sum : (n : ℕ) → is_positive (pos (suc n) +ℤ pos 10) ≡ true
unfolding is_positive
positive_sum n = rw (sum_pos n) refl

-- The worker behind the actions of a handover that reorders.
handover_worker : Worker → ℤ → ℕ → ℕ → Worker
handover_worker ctx mark n m =
    worker_set_reorder
      (worker_set_drop (worker_set_mark ctx (unsigned 32 mark)) true (pos (suc n) +ℤ pos 10)) true
      (suc n % 2 ^ 16) (m % 2 ^ 16)

-- The schedule of a handover line that reorders.
handover_events : (time queue mark gap : ℤ) (n m : ℕ) → List (Event Act)
handover_events time queue mark gap n m =
    let k = unsigned 16 queue in
    let at = unsigned 64 time in
    record { time = at; idx = 0; handler = stop_nfqueue k }
    ∷ record { time = unsigned 64 (time +ℤ gap); idx = 1; handler = start_nfqueue k }
    ∷ record { time = at; idx = 2; handler = set_mark k (unsigned 32 mark) }
    ∷ record { time = at; idx = 3; handler = set_drop k true (pos (suc n) +ℤ pos 10) }
    ∷ record { time = at; idx = 4; handler = set_reorder k true (suc n % 2 ^ 16) (m % 2 ^ 16) }
    ∷ []

parsed :
    (time queue mark gap loss : ℤ) (n m : ℕ)
    → parse_ho [] time (queue ∷ mark ∷ gap ∷ pos (suc n) ∷ pos m ∷ loss ∷ [])
      ≡ some (handover_events time queue mark gap n m)
unfolding parse_ho add_event drop_cnt_of handover_events scheduler_add_event is_positive
parsed time queue mark gap loss n m = rw (positive_sum n) refl

performed :
    (net : Netfilter) (s : System) (a : ℕ) (time queue mark gap : ℤ) (n m : ℕ)
    → IsOpen s (unsigned 16 queue) a
    → Reaches net
        (unsigned 16 queue)
        a
        (handover_events time queue mark gap n m)
        s
        (handover_worker (s.memory a) mark n m)
unfolding handover_events handover_worker perform with_queue
performed net s a time queue mark gap n m o =
    let k = unsigned 16 queue in
    let stopped = with_queue k (nfq_stop o.queue) s in
    let o1 = with_queue-IsOpen s k a (nfq_stop o.queue) o in
    let started = with_queue k (nfq_start o1.queue) stopped in
    let o2 = with_queue-IsOpen stopped k a (nfq_start o1.queue) o1 in
    let mark_it = λ (w : Worker). worker_set_mark w (unsigned 32 mark) in
    let drop_it = λ (w : Worker). worker_set_drop w true (pos (suc n) +ℤ pos 10) in
    let reorder_it = λ (w : Worker). worker_set_reorder w true (suc n % 2 ^ 16) (m % 2 ^ 16) in
    let marked = with_worker a mark_it started in
    let o3 = with_worker-IsOpen started k a mark_it o2 in
    let dropping = with_worker a drop_it marked in
    let o4 = with_worker-IsOpen marked k a drop_it o3 in
    let reordering = with_worker a reorder_it dropping in
    let o5 = with_worker-IsOpen dropping k a reorder_it o4 in
    Reaches-queue net k a s o (nfq_stop o.queue) _ _ _ (action_stop_nfqueue_lem s k a o) (
      Reaches-queue net k a stopped o1 (nfq_start o1.queue) _ _ _
        (action_start_nfqueue_lem stopped k a o1)
        (Reaches-setter net k a started o2 mark_it _ _ (λ w. reorder_it (drop_it w)) refl
          (Reaches-setter net k a marked o3 drop_it _ _ reorder_it refl (
            Reaches-setter net k a dropping o4 reorder_it _ _ (λ w. w) refl
              (Reaches-nil net k a reordering o5)))))

either_order :
    (ctx : Worker) (n m d : ℕ)
    → worker_set_reorder (worker_set_drop ctx true (pos d)) true n m
      ≡ worker_set_drop (worker_set_reorder ctx true n m) true (pos d)
unfolding worker_set_drop worker_set_reorder
either_order ctx n m d = refl

-- The drop is set first, and the counts fit their fields.
drop_first :
    (ctx : Worker) (mark : ℤ) (n m d : ℕ)
    → d ≡ suc n + 10
    → suc n ≤ 1000
    → m < 2 ^ 16
    → handover_worker ctx mark n m
      ≡ worker_set_drop
          (worker_set_reorder (worker_set_mark ctx (unsigned 32 mark)) true (suc n) m)
          true
          (pos d)
unfolding handover_worker
drop_first ctx mark n m d ten count offset =
    let count_fits : suc n % 2 ^ 16 ≡ suc n = omega arith in
    let offset_fits : m % 2 ^ 16 ≡ m = omega arith in
    let dropped_count : suc (n + 10) ≡ d = omega arith in
    rw (count_fits, offset_fits, sum_pos n, dropped_count)
      (either_order (worker_set_mark ctx (unsigned 32 mark)) (suc n) m d)

reorder_last :
    (ctx : Worker) (n m : ℕ)
    → done_dropping (worker_set_reorder ctx true n m)
      ≡ worker_set_reorder (done_dropping ctx) true n m
unfolding worker_set_reorder
reorder_last ctx n m = refl

-- The events that a handover line adds to an empty schedule, with a reorder count of at most 1000
-- packets and an offset below 2^16, at least one each, run on a queue that is open and set its worker
-- so that it drops ten packets more than the reorder count, whatever the line's loss is; it then holds
-- as many as the count, lets as many as the offset pass with the line's mark, and the last of these
-- releases the held ones from the last to the first.
pub handover_lem :
    (net : Netfilter) (s : System) (a : ℕ) (time queue mark gap loss : ℤ) (lost : Packet)
    (losses : List Packet) (p : Packet) (ps : List Packet) (q : Packet) (qs : List Packet)
    (is : List Input)
    → IsOpen s (unsigned 16 queue) a
    → length (lost ∷ losses) ≡ length (p ∷ ps) + 10
    → length (p ∷ ps) ≤ 1000
    → length (q ∷ qs) < 2 ^ 16
    → (es : List (Event Act)) × (s' : System) × (parse_ho [] time
          (queue ∷ mark ∷ gap ∷ pos (length (p ∷ ps)) ∷ pos (length (q ∷ qs)) ∷ loss ∷ [])
        ≡ some es)
      × (perform_all net es s ≡ some s')
      × (let marked = done_dropping (worker_set_mark (s.memory a) (unsigned 32 mark)) in
          run
            (s'.memory a)
            (map packet (lost ∷ losses) ++ (map packet (p ∷ ps) ++ (map packet (q ∷ qs) ++ is)))
          ≡ after (map (λ r. dropped r.id) (lost ∷ losses)) (
              after
                (accept_all marked (ids (q ∷ qs)) ++ accept_all marked (reverse (ids (p ∷ ps))))
                (run (done_reordering marked (length qs)) is)))
handover_lem net s a time queue mark gap loss lost losses p ps q qs is opened ten count offset =
    let (s', runs, _, same) =
      performed net s a time queue mark gap (length ps) (length (q ∷ qs)) opened in
    let marked = worker_set_mark (s.memory a) (unsigned 32 mark) in
    let rest = map packet (p ∷ ps) ++ (map packet (q ∷ qs) ++ is) in
    let start =
      same
      ∙ drop_first (s.memory a) mark (length ps) (length (q ∷ qs)) (length (lost ∷ losses)) ten
          count offset in
    let drops =
      run-worker_set_drop (worker_set_reorder marked true (length (p ∷ ps)) (length (q ∷ qs))) lost
        losses rest in
    let reorders =
      run-worker_set_reorder (done_dropping marked) refl (p ∷ ps) q qs is count offset in
    (
      handover_events time queue mark gap (length ps) (length (q ∷ qs)),
      s',
      parsed time queue mark gap loss (length ps) (length (q ∷ qs)),
      runs,
      ap (λ w. run w (map packet (lost ∷ losses) ++ rest)) start
          ∙ drops
          ∙ ap (λ w. after (map (λ r. dropped r.id) (lost ∷ losses)) (run w rest))
              (reorder_last marked (length (p ∷ ps)) (length (q ∷ qs)))
          ∙ ap (after (map (λ r. dropped r.id) (lost ∷ losses))) reorders,
    )
