-- ===== src/Worker/Types.antt =====
-- A worker's fields under packets.
use emulator_test.Prelude.{
  ℕ, ◌^◌, ◌<◌, ◌≡◌, refl, arith, true, false, List, [], ◌∷◌, ◌++◌, if◌then◌else◌,
}
use emulator_test.Worker.{
  Worker, Packet, Outcome, Verdict, accepted, worker_handle_drop, queue_or_pass, release,
  worker_handle_reorder, worker_handle_dedup, worker_handle_rwnd, count_data, or_else,
  worker_callback,
}

-- The values fit `uint32_t`, `uint16_t` and `uint64_t`.
pub record HasTypes (w : Worker) : Type 0 where
  pub mark : w.mark < 2 ^ 32
  pub tune_rwnd : w.tune_rwnd < 2 ^ 16
  pub data_rcvd : w.data_rcvd < 2 ^ 64

module _ (w : Worker) (p : Packet) (t : HasTypes w) where
  drop_types : HasTypes (worker_handle_drop w p).0
  unfolding worker_handle_drop
  drop_types = ground arith

  reorder_types : HasTypes (worker_handle_reorder w p).0
  unfolding worker_handle_reorder queue_or_pass release
  reorder_types = ground arith

  dedup_types : HasTypes (worker_handle_dedup w p).0
  unfolding worker_handle_dedup
  dedup_types = ground arith

  rwnd_types : HasTypes (worker_handle_rwnd w p).0
  unfolding worker_handle_rwnd count_data
  rwnd_types = ground arith

or_else_types :
    (o : Outcome) (next : Worker → Outcome)
    → HasTypes o.0
    → ((w : Worker) → HasTypes w → HasTypes (next w).0)
    → HasTypes (or_else o next).0
unfolding or_else
or_else_types (w, out, true) next h k = h
or_else_types (w, out, false) next h k = k w h

answered : Outcome → ℕ → Worker × List Verdict
answered (w, out, handled) id = if handled then (w, out) else (w, out ++ accepted id w.mark ∷ [])

answered_types : (o : Outcome) (id : ℕ) → HasTypes o.0 → HasTypes (answered o id).0
unfolding answered
answered_types (w, out, true) id h = h
answered_types (w, out, false) id h = h

handled_by : Worker → Packet → Outcome
handled_by w p = or_else (worker_handle_drop w p) (λ c.
    or_else (worker_handle_reorder c p)
      (λ c. or_else (worker_handle_dedup c p) (λ c. worker_handle_rwnd c p)))

callback_lem : (w : Worker) (p : Packet) → worker_callback w p ≡ answered (handled_by w p) p.id
unfolding worker_callback answered handled_by
callback_lem w p = refl

handled_types : (w : Worker) (p : Packet) → HasTypes w → HasTypes (handled_by w p).0
unfolding handled_by
handled_types w p t = or_else_types (worker_handle_drop w p) _ (drop_types w p t) (λ c tc.
    or_else_types (worker_handle_reorder c p) _ (reorder_types c p tc) (λ d td.
      or_else_types (worker_handle_dedup d p) _ (dedup_types d p td) (λ e te. rwnd_types e p te)))

pub callback-HasTypes : (w : Worker) (p : Packet) → HasTypes w → HasTypes (worker_callback w p).0
callback-HasTypes w p t =
    rw (callback_lem w p) (answered_types (handled_by w p) p.id (handled_types w p t))
