-- ===== src/Actions/Setters.antt =====
-- The setters of a worker on a queue that has been initialised, and where a worker's memory is read back.
use emulator_test.Prelude.{ℕ, ◌≡◌, refl, ap, ◌∙◌, ◌==◌, true, ltb, some, arith, List, [], ◌∷◌}
use emulator_test.Worker.{Worker}
use emulator_test.Scheduler.{Event}
use emulator_test.Nfqueue.{Queue, Netfilter, nfq_start, nfq_stop}
use emulator_test.Events.{Act}
use emulator_test.Actions.{
  System, entry, with_worker, on_worker, update, action_start_nfqueue, action_stop_nfqueue, perform,
  perform_all,
}

pub eq_self : (k : ℕ) → (k == k) ≡ true
eq_self k = ground arith

-- A queue with its entries: where its worker stands.
pub record IsOpen (s : System) (k a : ℕ) : Type 0 where
  pub in_range : ltb k 255 ≡ true
  pub queue : Queue
  pub queue_entry : s.queues k ≡ some queue
  pub worker_entry : s.workers k ≡ some a

module _ (s : System) (k a : ℕ) (f : Worker → Worker) where
  pub on_worker_lem : IsOpen s k a → on_worker k f s ≡ some (with_worker a f s)
  unfolding on_worker entry
  on_worker_lem o = rw (o.in_range, o.worker_entry) refl

  pub with_worker-IsOpen : IsOpen s k a → IsOpen (with_worker a f s) k a
  unfolding with_worker
  with_worker-IsOpen o = record {
    in_range = o.in_range;
    queue = o.queue;
    queue_entry = o.queue_entry;
    worker_entry = o.worker_entry;
  }

pub memory-with_worker :
    (s : System) (a : ℕ) (f : Worker → Worker) → (with_worker a f s).memory a ≡ f (s.memory a)
unfolding with_worker
memory-with_worker s a f = rw (eq_self a) refl

-- The queue of a number in another state.
unfoldable pub with_queue : ℕ → Queue → System → System
with_queue k q s = record s { queues = update k (some q) s.queues }

module _ (s : System) (k a : ℕ) where
  pub action_stop_nfqueue_lem :
      (o : IsOpen s k a) → action_stop_nfqueue k s ≡ some (with_queue k (nfq_stop o.queue) s)
  unfolding action_stop_nfqueue entry with_queue
  action_stop_nfqueue_lem o = rw (o.in_range, o.queue_entry) refl

  pub action_start_nfqueue_lem :
      (o : IsOpen s k a) → action_start_nfqueue k s ≡ some (with_queue k (nfq_start o.queue) s)
  unfolding action_start_nfqueue entry with_queue
  action_start_nfqueue_lem o = rw (o.in_range, o.queue_entry) refl

  pub with_queue-IsOpen : (q : Queue) → IsOpen s k a → IsOpen (with_queue k q s) k a
  unfolding with_queue
  with_queue-IsOpen q o = record {
    in_range = o.in_range;
    queue = q;
    queue_entry = rw (eq_self k) refl;
    worker_entry = o.worker_entry;
  }

  pub memory-with_queue : (q : Queue) → (with_queue k q s).memory ≡ s.memory
  unfolding with_queue
  memory-with_queue q = refl

pub perform_all-cons :
    (net : Netfilter) (e : Event Act) (es : List (Event Act)) (s s' : System)
    → perform net e.handler s ≡ some s'
    → perform_all net (e ∷ es) s ≡ perform_all net es s'
unfolding perform_all
perform_all-cons net e es s s' h = rw h refl

-- Actions that return, with the queue still open and its worker in a state.
abbrev pub Reaches : Netfilter → ℕ → ℕ → List (Event Act) → System → Worker → Type 0
Reaches net k a es s w =
    (s' : System) × (perform_all net es s ≡ some s') × IsOpen s' k a × (s'.memory a ≡ w)

module _ (net : Netfilter) (k a : ℕ) (s : System) (o : IsOpen s k a) where
  pub Reaches-nil : Reaches net k a [] s (s.memory a)
  unfolding perform_all
  Reaches-nil = (s, refl, o, refl)

  -- A setter first.
  pub Reaches-setter :
      (f : Worker → Worker) (e : Event Act) (es : List (Event Act)) (g : Worker → Worker)
      → perform net e.handler s ≡ on_worker k f s
      → Reaches net k a es (with_worker a f s) (g ((with_worker a f s).memory a))
      → Reaches net k a (e ∷ es) s (g (f (s.memory a)))
  Reaches-setter f e es g same (s', runs, opened, at) = (
    s',
    perform_all-cons net e es s (with_worker a f s) (same ∙ on_worker_lem s k a f o) ∙ runs,
    opened,
    at ∙ ap g (memory-with_worker s a f),
  )

  -- An action that only changes the state of the queue first.
  pub Reaches-queue :
      (q : Queue) (e : Event Act) (es : List (Event Act)) (w : Worker)
      → perform net e.handler s ≡ some (with_queue k q s)
      → Reaches net k a es (with_queue k q s) w
      → Reaches net k a (e ∷ es) s w
  Reaches-queue q e es w h (s', runs, opened, at) =
      (s', perform_all-cons net e es s (with_queue k q s) h ∙ runs, opened, at)
