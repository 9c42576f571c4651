-- ===== src/Actions/Sound.antt =====
-- What every action and every tick keeps: the fields fit their C types, and the pointers and indices that
-- are followed lead to something.
use emulator_test.Prelude.{
  ℕ, ◌<◌, ◌≡◌, List, [], ◌∷◌, Bool, true, false, ltb, some, ◌==◌, Bool-cases, inl, inr, arith,
}
use emulator_test.Prelude.Int.{ℤ, pos}
use emulator_test.Worker.{
  Worker, worker_init_ctx, worker_set_mark, worker_sol_update, worker_set_rwnd, worker_set_burst,
  worker_set_adapt, worker_init_tcp_sched, worker_set_dedup, worker_set_reorder, worker_set_drop,
}
use emulator_test.Worker.Types.{HasTypes}
use emulator_test.Events.{
  Act, Link, run_command, init_nfqueue, start_nfqueue, stop_nfqueue, teardown_nfqueue, set_mark,
  set_dedup, set_drop, set_reorder, sol_update, set_rwnd, set_burst, set_adapt, init_tcp_sched,
}
use emulator_test.Nfqueue.{Queue, Netfilter, nfq_init}
use emulator_test.Actions.{System, Tcp, update, with_worker, on_worker, tuned, perform}
use emulator_test.Actions.Setters.{IsOpen, on_worker_lem}

-- Three links, as `hist_param` has.
abbrev pub Three : List Link → Type 0
Three links = (a : Link) × (b : Link) × (c : Link) × (links ≡ a ∷ b ∷ c ∷ [])

-- A system whose TCP solution has been initialised.
pub record IsSound (s : System) : Type 0 where
  pub typed : (j : ℕ) → HasTypes (s.memory j)
  pub allocated : (k a : ℕ) → s.workers k ≡ some a → a < s.next
  pub tuned_worker : (a : ℕ) × (s.tcp.wkctx ≡ some a) × (a < s.next)
  pub links : Three s.tcp.hist_param
  pub link_mark : (c : ℕ) × (s.tcp.mark ≡ pos c) × (c < 3)

abbrev pub IsOpenAt : System → ℕ → Type 0
IsOpenAt s k = (a : ℕ) × IsOpen s k a

-- What an action needs: a queue that has been initialised, one that can be, or the mark of a link.
abbrev pub Fits : Netfilter → System → Act → Type 0
Fits net s (run_command command) = Unit
Fits net s (init_nfqueue k) = (ltb k 255 ≡ true) × (q : Queue) × (nfq_init net k ≡ some q)
Fits net s (start_nfqueue k) = IsOpenAt s k
Fits net s (stop_nfqueue k) = IsOpenAt s k
Fits net s (teardown_nfqueue k) = IsOpenAt s k
Fits net s (set_mark k mark) = IsOpenAt s k
Fits net s (set_dedup k enable) = IsOpenAt s k
Fits net s (set_drop k enable drop_count) = IsOpenAt s k
Fits net s (set_reorder k enable count offset) = IsOpenAt s k
Fits net s (sol_update k mark) = IsOpenAt s k × (mark < 3)
Fits net s (set_rwnd k rwnd) = IsOpenAt s k
Fits net s (set_burst k enable) = IsOpenAt s k
Fits net s (set_adapt k start_time enable) = IsOpenAt s k
Fits net s (init_tcp_sched k args) = IsOpenAt s k × (args.mark ≡ pos 1)

abbrev pub Goes : Netfilter → Act → System → Type 0
Goes net h s = (s' : System) × (perform net h s ≡ some s') × IsSound s'

-- The setters keep the types.
abbrev pub Keeps : (Worker → Worker) → Type 0
Keeps f = (w : Worker) → HasTypes w → HasTypes (f w)

module _ (w : Worker) (h : HasTypes w) where
  pub init-HasTypes : HasTypes (worker_init_ctx w)
  unfolding worker_init_ctx
  init-HasTypes = omega arith

  pub set_mark-HasTypes : (mark : ℕ) → HasTypes (worker_set_mark w mark)
  unfolding worker_set_mark
  set_mark-HasTypes mark = omega arith

  pub set_rwnd-HasTypes : (rwnd : ℕ) → HasTypes (worker_set_rwnd w rwnd)
  unfolding worker_set_rwnd
  set_rwnd-HasTypes rwnd = omega arith

  pub sol_update-HasTypes : (rwnd : ℕ) → HasTypes (worker_sol_update w rwnd)
  unfolding worker_sol_update
  sol_update-HasTypes rwnd = omega arith

  pub set_burst-HasTypes : (enable : Bool) (rwnd : ℕ) → HasTypes (worker_set_burst w enable rwnd)
  unfolding worker_set_burst
  set_burst-HasTypes true rwnd = omega arith
  set_burst-HasTypes false rwnd = omega arith

  pub set_adapt-HasTypes : (enable : Bool) (rwnd : ℕ) → HasTypes (worker_set_adapt w enable rwnd)
  unfolding worker_set_adapt
  set_adapt-HasTypes true rwnd = omega arith
  set_adapt-HasTypes false rwnd = omega arith

  pub init_tcp_sched-HasTypes : (do_rwnd : Bool) → HasTypes (worker_init_tcp_sched w do_rwnd)
  unfolding worker_init_tcp_sched
  init_tcp_sched-HasTypes do_rwnd = omega arith

  pub set_dedup-HasTypes : (enable : Bool) → HasTypes (worker_set_dedup w enable)
  unfolding worker_set_dedup
  set_dedup-HasTypes enable = omega arith

  pub set_drop-HasTypes : (enable : Bool) (count : ℤ) → HasTypes (worker_set_drop w enable count)
  unfolding worker_set_drop
  set_drop-HasTypes true count = omega arith
  set_drop-HasTypes false count = omega arith

  pub set_reorder-HasTypes :
      (enable : Bool) (count offset : ℕ) → HasTypes (worker_set_reorder w enable count offset)
  unfolding worker_set_reorder
  set_reorder-HasTypes true count offset = omega arith
  set_reorder-HasTypes false count offset = omega arith

module _ (s : System) (h : IsSound s) where
  pub typed_update : (a : ℕ) (w : Worker) → HasTypes w → (j : ℕ) → HasTypes (update a w s.memory j)
  typed_update a w t j = elim (Bool-cases (j == a)) [
    | inl same ↦ rw same t
    | inr other ↦ rw other (h.typed j)
  ]

  -- A worker changed by a setter, with heuristics and a mark that stay in range.
  pub IsSound-with :
      (a : ℕ) (f : Worker → Worker) (tcp : Tcp)
      → Keeps f
      → (x : ℕ) × (tcp.wkctx ≡ some x) × (x < s.next)
      → Three tcp.hist_param
      → (c : ℕ) × (tcp.mark ≡ pos c) × (c < 3)
      → IsSound (with_worker a f (record s { tcp = tcp }))
  unfolding with_worker
  IsSound-with a f tcp keeps tuned three mark = record {
    typed = typed_update a (f (s.memory a)) (keeps (s.memory a) (h.typed a));
    allocated = h.allocated;
    tuned_worker = tuned;
    links = three;
    link_mark = mark;
  }

  pub IsSound-set : (a : ℕ) (f : Worker → Worker) → Keeps f → IsSound (with_worker a f s)
  IsSound-set a f keeps = IsSound-with a f s.tcp keeps h.tuned_worker h.links h.link_mark

  pub set_goes :
      (k : ℕ) (f : Worker → Worker)
      → Keeps f
      → IsOpenAt s k
      → (s' : System) × (on_worker k f s ≡ some s') × IsSound s'
  set_goes k f keeps (a, o) = (with_worker a f s, on_worker_lem s k a f o, IsSound-set a f keeps)
