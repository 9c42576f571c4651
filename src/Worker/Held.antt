-- ===== src/Worker/Held.antt =====
-- What a worker holds back over a run: `reorder_ids`.
use emulator_test.Prelude.{
  ℕ, zero, suc, ◌%◌, ◌^◌, ◌≡◌, refl, List, [], ◌∷◌, ◌++◌, map, Bool, true, false, not, Bool-cases,
  inl, inr, arith, ltb, if◌then◌else◌, ◌&&◌, ◌||◌,
}
use mathlib.Core.List.{Perm}
use mathlib.Core.List.Perm
use emulator_test.Prelude.Int.{pos}
use emulator_test.Worker.{
  Worker, Input, packet, set_mark, set_rwnd, sol_update, set_burst, set_adapt, init_tcp_sched,
  set_dedup, set_reorder, set_drop, is_positive, worker_set_mark, worker_set_rwnd,
  worker_sol_update, worker_set_burst, worker_set_adapt, worker_init_tcp_sched, worker_set_dedup,
  worker_set_reorder, worker_set_drop, step, run,
}
use emulator_test.Worker.Queue.{
  Kept, IsBounded, IsWaiting, room_needed, to_queue, id_of, two_steps, nothing_new,
  worker_callback-Kept,
}

-- The packets of the inputs.
packet_id : Input → List ℕ
packet_id (packet p) = p.id ∷ []
packet_id (set_mark mark) = []
packet_id (set_rwnd rwnd) = []
packet_id (sol_update rwnd) = []
packet_id (set_burst enable rwnd) = []
packet_id (set_adapt enable rwnd) = []
packet_id (init_tcp_sched do_rwnd) = []
packet_id (set_dedup enable) = []
packet_id (set_reorder enable count offset) = []
packet_id (set_drop enable count) = []

pub packet_ids : List Input → List ℕ
unfolding packet_id
packet_ids [] = []
packet_ids (i ∷ is) = packet_id i ++ packet_ids is

step-IsBounded : (ctx : Worker) (i : Input) → IsBounded ctx → IsBounded (step ctx i).0
unfolding step Kept IsBounded room_needed to_queue worker_set_mark worker_set_rwnd worker_sol_update
    worker_set_burst worker_set_adapt worker_init_tcp_sched worker_set_dedup worker_set_reorder
    worker_set_drop
step-IsBounded ctx (packet p) b = (worker_callback-Kept ctx p).0 b
step-IsBounded ctx (set_mark mark) b = b
step-IsBounded ctx (set_rwnd rwnd) b = b
step-IsBounded ctx (sol_update rwnd) b = b
step-IsBounded ctx (set_burst true rwnd) b = b
step-IsBounded ctx (set_burst false rwnd) b = b
step-IsBounded ctx (set_adapt true rwnd) b = b
step-IsBounded ctx (set_adapt false rwnd) b = b
step-IsBounded ctx (init_tcp_sched do_rwnd) b = b
step-IsBounded ctx (set_dedup enable) b = b
step-IsBounded ctx (set_reorder true count offset) b = ground arith
step-IsBounded ctx (set_reorder false count offset) b = omega arith
step-IsBounded ctx (set_drop true count) b = b
step-IsBounded ctx (set_drop false count) b = b

-- Of a worker that holds at most 1000 packets, with those that it is still to queue, this stays
-- so, however it is set and whatever packets come, so that no entry is written behind the end of
-- `reorder_ids`.
pub run-IsBounded : (ctx : Worker) (is : List Input) → IsBounded ctx → IsBounded (run ctx is).0
unfolding run
run-IsBounded ctx [] b = b
run-IsBounded ctx (i ∷ is) b = run-IsBounded (step ctx i).0 is (step-IsBounded ctx i b)

pub is_empty : List ℕ → Bool
is_empty [] = true
is_empty (x ∷ xs) = false

-- Whether an input lets every packet be answered or held: a worker is set to reorder, or not to, only
-- while it holds nothing, and then to queue a packet or to pass one.
pub is_careful : Worker → Input → Bool
is_careful ctx (packet p) = true
is_careful ctx (set_mark mark) = true
is_careful ctx (set_rwnd rwnd) = true
is_careful ctx (sol_update rwnd) = true
is_careful ctx (set_burst enable rwnd) = true
is_careful ctx (set_adapt enable rwnd) = true
is_careful ctx (init_tcp_sched do_rwnd) = true
is_careful ctx (set_dedup enable) = true
is_careful ctx (set_reorder enable count offset) =
    is_empty ctx.reorder_ids && (not enable || (ltb 0 (count % 2 ^ 16) || ltb 0 (offset % 2 ^ 16)))
is_careful ctx (set_drop enable count) = true

unfoldable pub are_careful : Worker → List Input → Bool
unfolding is_careful is_empty
are_careful ctx [] = true
are_careful ctx (i ∷ is) = is_careful ctx i && are_careful (step ctx i).0 is

nothing_held : (held : List ℕ) → is_empty held ≡ true → Perm [] (held ++ [])
unfolding is_empty
nothing_held [] h = Perm.rfl
nothing_held (x ∷ xs) h = absurd cc

waits :
    (count offset : ℕ)
    → (ltb 0 count || ltb 0 offset) ≡ true
    → not (is_positive (pos (if ltb 1000 count then 1000 else count)) || is_positive (pos offset))
      ≡ false
unfolding is_positive
waits zero zero h = absurd cc
waits zero (suc offset) h = refl
waits (suc count) offset h = elim (Bool-cases (ltb 1000 (suc count))) [
  | inl more ↦ rw more refl
  | inr fits ↦ rw fits refl
]

step_answered :
    (ctx : Worker) (i : Input)
    → is_careful ctx i ≡ true
    → IsWaiting ctx
    → IsWaiting (step ctx i).0
      × Perm
          (map id_of (step ctx i).1 ++ (step ctx i).0.reorder_ids)
          (ctx.reorder_ids ++ packet_id i)
unfolding step Kept IsWaiting is_careful packet_id worker_set_mark worker_set_rwnd worker_sol_update
    worker_set_burst worker_set_adapt worker_init_tcp_sched worker_set_dedup worker_set_reorder
    worker_set_drop
step_answered ctx (packet p) careful w = (worker_callback-Kept ctx p).1 w
step_answered ctx (set_mark mark) careful w = (w, nothing_new ctx.reorder_ids)
step_answered ctx (set_rwnd rwnd) careful w = (w, nothing_new ctx.reorder_ids)
step_answered ctx (sol_update rwnd) careful w = (w, nothing_new ctx.reorder_ids)
step_answered ctx (set_burst true rwnd) careful w = (w, nothing_new ctx.reorder_ids)
step_answered ctx (set_burst false rwnd) careful w = (w, nothing_new ctx.reorder_ids)
step_answered ctx (set_adapt true rwnd) careful w = (w, nothing_new ctx.reorder_ids)
step_answered ctx (set_adapt false rwnd) careful w = (w, nothing_new ctx.reorder_ids)
step_answered ctx (init_tcp_sched do_rwnd) careful w = (w, nothing_new ctx.reorder_ids)
step_answered ctx (set_dedup enable) careful w = (w, nothing_new ctx.reorder_ids)
step_answered ctx (set_reorder true count offset) careful w = (
  waits (count % 2 ^ 16) (offset % 2 ^ 16) (ground (arith, careful)),
  nothing_held ctx.reorder_ids (ground (arith, careful)),
)
step_answered ctx (set_reorder false count offset) careful w = (refl, nothing_new ctx.reorder_ids)
step_answered ctx (set_drop true count) careful w = (w, nothing_new ctx.reorder_ids)
step_answered ctx (set_drop false count) careful w = (w, nothing_new ctx.reorder_ids)

-- Where a worker that reorders has a packet to queue or to pass, and is set to reorder, or not to,
-- only while it holds nothing, and then to queue a packet or to pass one, every packet that comes
-- or that the worker has held is, as often as it came, either answered or still held after the
-- run.
pub run-answered :
    (ctx : Worker) (is : List Input)
    → are_careful ctx is ≡ true
    → IsWaiting ctx
    → Perm
        (map id_of (run ctx is).1 ++ (run ctx is).0.reorder_ids)
        (ctx.reorder_ids ++ packet_ids is)
unfolding run are_careful packet_ids
run-answered ctx [] careful w = nothing_new ctx.reorder_ids
run-answered ctx (i ∷ is) careful w =
    let (w', first) = step_answered ctx i (ground (arith, careful)) w in
    let rest = run-answered (step ctx i).0 is (ground (arith, careful)) w' in
    two_steps (step ctx i).1 _ _ _ _ _ _ first rest
