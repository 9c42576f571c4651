-- ===== src/Actions.antt =====
-- The actions of a trace and the ticks of the TCP solution, src/action.c, on the workers of the queues. A
-- worker stands at an address, since `tcp_ctx` keeps a pointer to one. `none` is an end of the emulator: a
-- NULL pointer, an index out of range or `exit`. Doubles are an interface; `to_float` rounds to a `float`,
-- `to_int` and `to_u16` cut off. Memory that `malloc` returns holds a worker of any content.
pub mod Setters
pub mod Solution
pub mod Sound
pub mod Kept
pub mod Runs
mod Tests
use emulator_test.Prelude.{
  ℕ, suc, ◌/◌, ◌%◌, ◌^◌, List, [], ◌∷◌, get_elem?, Bool, not, ◌&&◌, zero, ltb, ◌==◌, Option, none,
  some, if◌then◌else◌,
}
use emulator_test.Prelude.Int.{ℤ, pos, negsuc, ltb_ℤ}
use emulator_test.Scheduler.{Event}
use emulator_test.Number.{Number, number}
use emulator_test.Worker.{
  Worker, worker_init_ctx, worker_set_mark, worker_sol_update, worker_set_rwnd, worker_set_burst,
  worker_set_adapt, worker_init_tcp_sched, worker_set_dedup, worker_set_reorder, worker_set_drop,
}
use emulator_test.Events.{
  Act, Link, SchedArgs, run_command, init_nfqueue, start_nfqueue, stop_nfqueue, teardown_nfqueue,
  set_mark, set_dedup, set_drop, set_reorder, sol_update, set_rwnd, set_burst, set_adapt,
  init_tcp_sched, unsigned,
}
use emulator_test.Nfqueue.{Queue, Netfilter, nfq_init, nfq_start, nfq_stop, nfq_teardown}

-- `tcp_ctx`, with `threshold` and `pace` in hundredths.
pub record Tcp : Type 0 where
  pub fire : ℕ
  pub wkctx : Option ℕ
  pub mark : ℤ
  pub sample_interval : ℤ
  pub burst_sample_interval : ℤ
  pub threshold : ℤ
  pub pace : ℤ
  pub enable : Bool
  pub hist_param : List Link

-- `action_ctx`, the workers in memory and the address that `malloc` returns next.
pub record System : Type 0 where
  pub queues : ℕ → Option Queue
  pub workers : ℕ → Option ℕ
  pub memory : ℕ → Worker
  pub next : ℕ
  pub tcp : Tcp

infixl 5 ◌>>=◌
abbrev pub ◌>>=◌ {ℓ κ} : {A : Type ℓ} {B : Type κ} → Option A → (A → Option B) → Option B
none >>= f = none
some a >>= f = f a

abbrev pub update {ℓ} : {A : Type ℓ} → ℕ → A → (ℕ → A) → ℕ → A
update k v f j = if j == k then v else f j

-- `action_init_ctx` and `init_tcp_scheduler`: no queue yet, and no tick for 2^32 - 1 ms. The other fields
-- and the memory hold anything.
unfoldable pub action_init_ctx : (ℕ → Worker) → Tcp → System
action_init_ctx memory stack = record {
  queues = λ k. none;
  workers = λ k. none;
  memory = memory;
  next = 0;
  tcp = record stack { fire = 0xFFFFFFFF; wkctx = none; sample_interval = pos 0 };
}

-- `ctx->queues[queue_num]` and `ctx->workers[queue_num]`, of ACTION_MAX_NFQUEUE entries
unfoldable pub entry {ℓ} : {A : Type ℓ} → (ℕ → Option A) → ℕ → Option A
entry table k = if ltb k 255 then table k else none

-- `hist_param[mark]`
unfoldable pub hist_at : ℤ → List Link → Option Link
hist_at (pos k) links = get_elem? links k
hist_at (negsuc k) links = none

-- `hist_param[mark].hist_rw = rw`
unfoldable pub save_at : ℕ → ℤ → List Link → Option (List Link)
save_at k rw [] = none
save_at zero rw (l ∷ links) = some (record l { hist_rw = rw } ∷ links)
save_at (suc k) rw (l ∷ links) = save_at k rw links >>= λ saved. some (l ∷ saved)

unfoldable pub save : ℤ → ℤ → List Link → Option (List Link)
unfolding save_at
save (pos k) rw links = save_at k rw links
save (negsuc k) rw links = none

-- A change of the worker at an address.
unfoldable pub with_worker : ℕ → (Worker → Worker) → System → System
with_worker a f s = record s { memory = update a (f (s.memory a)) s.memory }

-- A setter on the worker of a queue.
unfoldable pub on_worker : ℕ → (Worker → Worker) → System → Option System
unfolding entry with_worker
on_worker k f s = do a ← entry s.workers k; some (with_worker a f s)

-- An `int` in the field of 16 bits that an `int` parameter is written to.
unfoldable pub bits16 : ℤ → ℕ
unfolding unsigned
bits16 z = unsigned 16 z

unfoldable pub action_init_nfqueue : Netfilter → ℕ → System → Option System
unfolding nfq_init
action_init_nfqueue net k s =
    if ltb k 255
    then (nfq_init net k >>= λ q. some (record s {
      queues = update k (some q) s.queues;
      workers = update k (some s.next) s.workers;
      memory = update s.next (worker_init_ctx (s.memory s.next)) s.memory;
      next = suc s.next;
    }))
    else none

unfoldable pub action_start_nfqueue : ℕ → System → Option System
unfolding entry nfq_start
action_start_nfqueue k s = do
  q ← entry s.queues k
  some (record s { queues = update k (some (nfq_start q)) s.queues })

unfoldable pub action_stop_nfqueue : ℕ → System → Option System
unfolding entry nfq_stop
action_stop_nfqueue k s = do
  q ← entry s.queues k
  some (record s { queues = update k (some (nfq_stop q)) s.queues })

-- A queue that cannot be torn down keeps its entries, with the thread dead.
unfoldable pub action_teardown_nfqueue : Netfilter → ℕ → System → Option System
unfolding entry nfq_teardown
action_teardown_nfqueue net k s = do
  q ← entry s.queues k
  a ← entry s.workers k
  let (q', failed) = nfq_teardown net q
  some (
      if failed
      then record s { queues = update k (some q') s.queues }
      else record s { queues = update k none s.queues; workers = update k none s.workers })

-- What is learned of the link that is left is kept if a window is set.
unfoldable pub action_sol_update : ℕ → ℕ → System → Option System
unfolding entry hist_at save with_worker
action_sol_update k mark s = do
  a ← entry s.workers k
  let learned = (s.memory a).tune_rwnd
  tcp ←
      if ltb 0 learned
      then (save s.tcp.mark (pos learned) s.tcp.hist_param >>= λ links.
          some (record s.tcp { hist_param = links; mark = pos mark }))
      else some s.tcp
  link ← hist_at (pos mark) tcp.hist_param
  some (with_worker a (λ w. worker_sol_update w (bits16 link.hist_rw)) (record s { tcp = tcp }))

unfoldable pub action_set_rwnd : ℕ → ℕ → System → Option System
unfolding on_worker
action_set_rwnd k rwnd s = on_worker k (λ w. worker_set_rwnd w (if ltb rwnd 10 then 10 else rwnd)) s

-- The window of the worker of a queue and the parameters of the current link.
unfoldable pub current : ℕ → System → Option (ℕ × Link)
unfolding entry hist_at
current k s = do
  a ← entry s.workers k
  link ← hist_at s.tcp.mark s.tcp.hist_param
  some ((s.memory a).tune_rwnd, link)

-- At the end of a burst the link's window is raised to the one that was reached.
unfoldable pub action_set_burst : ℕ → Bool → System → Option System
unfolding on_worker current save
action_set_burst k enable s = do
  (window, link) ← current k s
  set ← on_worker k (λ w. worker_set_burst w enable (bits16 link.hist_rw)) s
  let raised = ltb_ℤ link.hist_rw (pos window)
  links ←
      if not enable && raised
      then save s.tcp.mark (pos window) s.tcp.hist_param
      else some s.tcp.hist_param
  some (record set {
    tcp = record s.tcp {
      hist_param = links;
      sample_interval = if enable then s.tcp.burst_sample_interval else s.tcp.sample_interval;
    };
  })

unfoldable pub action_set_adapt : ℕ → Bool → System → Option System
unfolding on_worker current
action_set_adapt k enable s = do
  (_, link) ← current k s
  set ← on_worker k (λ w. worker_set_adapt w enable (bits16 link.hist_rw)) s
  some (record set {
    tcp = record s.tcp { sample_interval = if enable then link.rtt else s.tcp.sample_interval };
  })

-- `hist_param[i]` of a link, with its number for the mark.
pub known : ℕ → Link → Link
known i l = record l { mark = pos i }

-- The first entry is left as it is.
unfoldable pub init_links : SchedArgs → List Link → List Link
unfolding known
init_links args [] = []
init_links args (l ∷ links) = l ∷ known 1 args.first ∷ known 2 args.second ∷ []

-- The worker at hand becomes the one that the ticks tune. `mark` is 1 or 2.
unfoldable pub action_init_tcp_sched : ℕ → SchedArgs → System → Option System
unfolding entry hist_at init_links with_worker
action_init_tcp_sched k args s = do
  a ← entry s.workers k
  let links = init_links args s.tcp.hist_param
  link ← hist_at args.mark links
  some (
      with_worker a
        (λ w. worker_set_rwnd (worker_init_tcp_sched w args.enable) (bits16 link.hist_rw))
        (record s {
          tcp = record {
            fire = unsigned 64 args.fire;
            wkctx = some a;
            mark = args.mark;
            sample_interval = link.rtt;
            burst_sample_interval = args.sample_interval;
            threshold = args.threshold;
            pace = args.pace;
            enable = args.enable;
            hist_param = links;
          };
        }))

-- Read nowhere.
abbrev pub no_link : Link
no_link = record { mark = pos 0; hist_rw = pos 0; rtt = pos 0 }

-- The conversions of C between integers and floating-point numbers.
pub record Conversion {ℓ} (F : Type ℓ) : Type ℓ where
  pub to_float : F → F
  pub to_int : F → ℤ
  pub to_u16 : F → ℕ

module _ {ℓ} {F : Type ℓ} ⦃n : Number F⦄ (c : Conversion F) where
  -- A `float` of an `int` in hundredths.
  hundredths : ℤ → F
  hundredths z = c.to_float (n.over (n.of_ℤ z) (number 100))

  -- `rw_est`, less its last ten bits
  unfoldable pub burst_estimate : ℤ → ℤ → ℕ → ℕ
  unfolding unsigned
  burst_estimate rtt sample_interval data_rcvd =
      let rate = n.over (n.of_ℤ rtt) (n.of_ℤ sample_interval) in
      unsigned 64 (c.to_int (n.times (number data_rcvd) rate)) / 2 ^ 10

  -- `tune_rwnd * (1 + pace)` and `tune_rwnd * (1 - pace / 4)`, in `float`
  pub faster : ℤ → ℕ → ℕ
  unfolding hundredths
  faster pace window =
      c.to_u16
        (c.to_float (n.times (number window) (c.to_float (n.plus (number 1) (hundredths pace)))))

  pub slower : ℤ → ℕ → ℕ
  unfolding hundredths
  slower pace window =
      let quarter = c.to_float (n.over (hundredths pace) (number 4)) in
      c.to_u16 (c.to_float (n.times (number window) (c.to_float (n.minus (number 1) quarter))))

  -- The window that a tick sets.
  unfoldable pub tuned : Tcp → Link → Worker → ℕ
  unfolding burst_estimate faster slower hundredths
  tuned tcp link w =
      let estimate = burst_estimate link.rtt tcp.sample_interval w.data_rcvd in
      let rate = n.over (number (w.data_rcvd / 2 ^ 10)) (number w.tune_rwnd) in
      if w.do_burst
      then (if ltb w.tune_rwnd estimate then estimate % 2 ^ 16 else w.tune_rwnd)
      else if w.do_adapt && ltb 0 w.tune_rwnd
      then (if n.lt (hundredths tcp.threshold) rate
          then faster tcp.pace w.tune_rwnd
          else if n.lt rate (n.over (number 7) (number 10))
          then slower tcp.pace w.tune_rwnd
          else w.tune_rwnd)
      else w.tune_rwnd

  -- `hist_param` is read only for a burst.
  pub tcp_schedule : System → Option System
  unfolding hist_at with_worker tuned
  tcp_schedule s = do
    a ← s.tcp.wkctx
    let w = s.memory a
    link ← if w.do_burst then hist_at s.tcp.mark s.tcp.hist_param else some no_link
    some (with_worker a (λ w. record w { tune_rwnd = tuned s.tcp link w; data_rcvd = 0 }) s)

-- What an action does; a command leaves the state.
unfoldable pub perform : Netfilter → Act → System → Option System
unfolding action_init_nfqueue action_start_nfqueue action_stop_nfqueue action_teardown_nfqueue
    action_sol_update action_set_rwnd action_set_burst action_set_adapt action_init_tcp_sched
    on_worker
perform net (run_command command) s = some s
perform net (init_nfqueue k) s = action_init_nfqueue net k s
perform net (start_nfqueue k) s = action_start_nfqueue k s
perform net (stop_nfqueue k) s = action_stop_nfqueue k s
perform net (teardown_nfqueue k) s = action_teardown_nfqueue net k s
perform net (set_mark k mark) s = on_worker k (λ w. worker_set_mark w mark) s
perform net (set_dedup k enable) s = on_worker k (λ w. worker_set_dedup w enable) s
perform net (set_drop k enable drop_count) s =
    on_worker k (λ w. worker_set_drop w enable drop_count) s
perform net (set_reorder k enable count offset) s =
    on_worker k (λ w. worker_set_reorder w enable count offset) s
perform net (sol_update k mark) s = action_sol_update k mark s
perform net (set_rwnd k rwnd) s = action_set_rwnd k rwnd s
perform net (set_burst k enable) s = action_set_burst k enable s
perform net (set_adapt k start_time enable) s = action_set_adapt k enable s
perform net (init_tcp_sched k args) s = action_init_tcp_sched k args s

unfoldable pub perform_all : Netfilter → List (Event Act) → System → Option System
perform_all net [] s = some s
perform_all net (e ∷ es) s = perform net e.handler s >>= λ s'. perform_all net es s'
