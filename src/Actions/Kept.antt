-- ===== src/Actions/Kept.antt =====
-- Each action of a sound system returns and leaves it sound.
use emulator_test.Prelude.{
  ℕ, zero, suc, ◌<◌, ◌≡◌, refl, List, [], ◌∷◌, Bool, true, not, ◌&&◌, ltb, none, some,
  if◌then◌else◌, Bool-cases, inl, inr, arith,
}
use emulator_test.Prelude.Int.{ℤ, pos, ltb_ℤ}
use emulator_test.Worker.{
  Worker, worker_init_ctx, worker_sol_update, worker_set_rwnd, worker_set_burst, worker_set_adapt,
  worker_init_tcp_sched,
}
use emulator_test.Events.{
  Act, Link, SchedArgs, run_command, init_nfqueue, start_nfqueue, stop_nfqueue, teardown_nfqueue,
  set_mark, set_dedup, set_drop, set_reorder, sol_update, set_rwnd, set_burst, set_adapt,
  init_tcp_sched, unsigned,
}
use emulator_test.Nfqueue.{Queue, Netfilter, nfq_init, nfq_start, nfq_stop, nfq_teardown}
use emulator_test.Actions.{
  System, Tcp, entry, update, hist_at, save, save_at, bits16, with_worker, current,
  action_init_nfqueue, action_start_nfqueue, action_stop_nfqueue, action_teardown_nfqueue,
  action_sol_update, action_set_rwnd, action_set_burst, action_set_adapt, action_init_tcp_sched,
  init_links, known, perform,
}
use emulator_test.Actions.Setters.{IsOpen, on_worker_lem}
use emulator_test.Actions.Sound.{
  Three, IsSound, Fits, Goes, Keeps, init-HasTypes, set_mark-HasTypes, set_rwnd-HasTypes,
  sol_update-HasTypes, set_burst-HasTypes, set_adapt-HasTypes, init_tcp_sched-HasTypes,
  set_dedup-HasTypes, set_drop-HasTypes, set_reorder-HasTypes, typed_update, IsSound-with,
  IsSound-set, set_goes,
}

-- The mark of a link finds its parameters, and can be written to.
pub hist_found :
    (links : List Link) (c : ℕ)
    → Three links
    → c < 3
    → (l : Link) × (hist_at (pos c) links ≡ some l)
unfolding hist_at
hist_found links zero (x, y, z, e) h = (x, rw e refl)
hist_found links (suc zero) (x, y, z, e) h = (y, rw e refl)
hist_found links (suc (suc zero)) (x, y, z, e) h = (z, rw e refl)
hist_found links (suc (suc (suc c))) t h = absurd (omega arith)

saved_three :
    (links : List Link) (c : ℕ) (rw : ℤ)
    → Three links
    → c < 3
    → (links' : List Link) × (save (pos c) rw links ≡ some links') × Three links'
unfolding save save_at
saved_three links zero r (x, y, z, e) h =
    (record x { hist_rw = r } ∷ y ∷ z ∷ [], rw e refl, (_, _, _, refl))
saved_three links (suc zero) r (x, y, z, e) h =
    (x ∷ record y { hist_rw = r } ∷ z ∷ [], rw e refl, (_, _, _, refl))
saved_three links (suc (suc zero)) r (x, y, z, e) h =
    (x ∷ y ∷ record z { hist_rw = r } ∷ [], rw e refl, (_, _, _, refl))
saved_three links (suc (suc (suc c))) r t h = absurd (omega arith)

module _ (net : Netfilter) (s : System) (h : IsSound s) where
  current_found :
      (k a : ℕ) → IsOpen s k a → (l : Link) × (current k s ≡ some ((s.memory a).tune_rwnd, l))
  unfolding current entry
  current_found k a o =
      let (c, mark, below) = h.link_mark in
      let (l, found) = hist_found s.tcp.hist_param c h.links below in
      (l, rw (o.in_range, o.worker_entry, mark, found) refl)

  init-Goes :
      (k : ℕ) (q : Queue) → ltb k 255 ≡ true → nfq_init net k ≡ some q → Goes net (init_nfqueue k) s
  unfolding perform action_init_nfqueue
  init-Goes k q low made =
      let (a, wkctx, below) = h.tuned_worker in
      (
        record s {
          queues = update k (some q) s.queues;
          workers = update k (some s.next) s.workers;
          memory = update s.next (worker_init_ctx (s.memory s.next)) s.memory;
          next = suc s.next;
        },
        rw (low, made) refl,
        record {
          typed = typed_update s h s.next _ (init-HasTypes (s.memory s.next) (h.typed s.next));
          allocated = λ j a e. ground (arith, h.allocated j a);
          tuned_worker = (a, wkctx, omega arith);
          links = h.links;
          link_mark = h.link_mark;
        },
      )

  start-Goes : (k a : ℕ) → IsOpen s k a → Goes net (start_nfqueue k) s
  unfolding perform action_start_nfqueue entry
  start-Goes k a o = (
    record s { queues = update k (some (nfq_start o.queue)) s.queues },
    rw (o.in_range, o.queue_entry) refl,
    record {
      typed = h.typed;
      allocated = h.allocated;
      tuned_worker = h.tuned_worker;
      links = h.links;
      link_mark = h.link_mark;
    },
  )

  stop-Goes : (k a : ℕ) → IsOpen s k a → Goes net (stop_nfqueue k) s
  unfolding perform action_stop_nfqueue entry
  stop-Goes k a o = (
    record s { queues = update k (some (nfq_stop o.queue)) s.queues },
    rw (o.in_range, o.queue_entry) refl,
    record {
      typed = h.typed;
      allocated = h.allocated;
      tuned_worker = h.tuned_worker;
      links = h.links;
      link_mark = h.link_mark;
    },
  )

  teardown-Goes : (k a : ℕ) → IsOpen s k a → Goes net (teardown_nfqueue k) s
  unfolding perform action_teardown_nfqueue entry
  teardown-Goes k a o = elim (Bool-cases ((nfq_teardown net o.queue).1)) [
    | inl failed ↦ (
      record s { queues = update k (some (nfq_teardown net o.queue).0) s.queues },
      rw (o.in_range, o.queue_entry) (rw o.worker_entry (rw failed refl)),
      record {
        typed = h.typed;
        allocated = h.allocated;
        tuned_worker = h.tuned_worker;
        links = h.links;
        link_mark = h.link_mark;
      },
    )
    | inr closed ↦ (
      record s { queues = update k none s.queues; workers = update k none s.workers },
      rw (o.in_range, o.queue_entry) (rw o.worker_entry (rw closed refl)),
      record {
        typed = h.typed;
        allocated = λ j b e. ground (arith, h.allocated j b);
        tuned_worker = h.tuned_worker;
        links = h.links;
        link_mark = h.link_mark;
      },
    )
  ]

  sol_update-Goes : (k m a : ℕ) → m < 3 → IsOpen s k a → Goes net (sol_update k m) s
  unfolding perform action_sol_update entry
  sol_update-Goes k m a low o =
      let (c, mark, below) = h.link_mark in
      let learned = (s.memory a).tune_rwnd in
      elim (Bool-cases (ltb 0 learned)) [
        | inl some_window ↦
            let (links', saved, three) =
              saved_three s.tcp.hist_param c (pos learned) h.links below in
            let (l, found) = hist_found links' m three low in
            let tcp = record s.tcp { hist_param = links'; mark = pos m } in
            let f = λ (w : Worker). worker_sol_update w (bits16 l.hist_rw) in
            (
              with_worker a f (record s { tcp = tcp }),
              rw (o.in_range, o.worker_entry, some_window) (rw (mark, saved) (rw found refl)),
              IsSound-with s h a f tcp (λ w t. sol_update-HasTypes w t (bits16 l.hist_rw))
                  h.tuned_worker three (m, refl, low),
            )
        | inr no_window ↦
            let (l, found) = hist_found s.tcp.hist_param m h.links low in
            let f = λ (w : Worker). worker_sol_update w (bits16 l.hist_rw) in
            (
              with_worker a f s,
              rw (o.in_range, o.worker_entry, no_window) (rw found refl),
              IsSound-set s h a f (λ w t. sol_update-HasTypes w t (bits16 l.hist_rw)),
            )
      ]

  set_burst-Goes : (k a : ℕ) (enable : Bool) → IsOpen s k a → Goes net (set_burst k enable) s
  unfolding perform action_set_burst
  set_burst-Goes k a enable o =
      let (c, mark, below) = h.link_mark in
      let (l, found) = current_found k a o in
      let f = λ (w : Worker). worker_set_burst w enable (bits16 l.hist_rw) in
      let keeps : Keeps f = λ w t. set_burst-HasTypes w t enable (bits16 l.hist_rw) in
      let window = (s.memory a).tune_rwnd in
      let ticks = if enable then s.tcp.burst_sample_interval else s.tcp.sample_interval in
      elim (Bool-cases (not enable && ltb_ℤ l.hist_rw (pos window))) [
        | inl raised ↦
            let (links', saved, three) =
              saved_three s.tcp.hist_param c (pos window) h.links below in
            let tcp = record s.tcp { hist_param = links'; sample_interval = ticks } in
            (
              with_worker a f (record s { tcp = tcp }),
              rw found (rw (on_worker_lem s k a f o) (rw raised (rw (mark, saved) refl))),
              IsSound-with s h a f tcp keeps h.tuned_worker three h.link_mark,
            )
        | inr kept ↦
            let tcp = record s.tcp { sample_interval = ticks } in
            (
              with_worker a f (record s { tcp = tcp }),
              rw found (rw (on_worker_lem s k a f o) (rw kept refl)),
              IsSound-with s h a f tcp keeps h.tuned_worker h.links h.link_mark,
            )
      ]

  set_adapt-Goes :
      (k a start_time : ℕ) (enable : Bool)
      → IsOpen s k a
      → Goes net (set_adapt k start_time enable) s
  unfolding perform action_set_adapt
  set_adapt-Goes k a start_time enable o =
      let (l, found) = current_found k a o in
      let f = λ (w : Worker). worker_set_adapt w enable (bits16 l.hist_rw) in
      let tcp = record s.tcp {
        sample_interval = if enable then l.rtt else s.tcp.sample_interval;
      } in
      (
        with_worker a f (record s { tcp = tcp }),
        rw found (rw (on_worker_lem s k a f o) refl),
        IsSound-with s h a f tcp (λ w t. set_adapt-HasTypes w t enable (bits16 l.hist_rw))
            h.tuned_worker h.links h.link_mark,
      )

  init_tcp_sched-Goes :
      (k a : ℕ) (args : SchedArgs)
      → args.mark ≡ pos 1
      → IsOpen s k a
      → Goes net (init_tcp_sched k args) s
  unfolding perform action_init_tcp_sched entry init_links hist_at
  init_tcp_sched-Goes k a args first o =
      let (x, y, z, e) = h.links in
      let links = init_links args (x ∷ y ∷ z ∷ []) in
      let l = known 1 args.first in
      let f =
        λ (w : Worker). worker_set_rwnd (worker_init_tcp_sched w args.enable) (bits16 l.hist_rw) in
      let tcp : Tcp = record {
        fire = unsigned 64 args.fire;
        wkctx = some a;
        mark = args.mark;
        sample_interval = l.rtt;
        burst_sample_interval = args.sample_interval;
        threshold = args.threshold;
        pace = args.pace;
        enable = args.enable;
        hist_param = links;
      } in
      (
        with_worker a f (record s { tcp = tcp }),
        rw (o.in_range, o.worker_entry, e) (rw first refl),
        IsSound-with s h a f tcp
            (λ w t.
              set_rwnd-HasTypes (worker_init_tcp_sched w args.enable)
                (init_tcp_sched-HasTypes w t args.enable) (bits16 l.hist_rw))
            (a, refl, h.allocated k a o.worker_entry) (_, _, _, refl) (1, first, omega arith),
      )

  pub perform-IsSound : (act : Act) → Fits net s act → Goes net act s
  unfolding perform action_set_rwnd
  perform-IsSound (run_command command) fit = (s, refl, h)
  perform-IsSound (init_nfqueue k) (low, q, made) = init-Goes k q low made
  perform-IsSound (start_nfqueue k) (a, o) = start-Goes k a o
  perform-IsSound (stop_nfqueue k) (a, o) = stop-Goes k a o
  perform-IsSound (teardown_nfqueue k) (a, o) = teardown-Goes k a o
  perform-IsSound (set_mark k mark) at = set_goes s h k _ (λ w t. set_mark-HasTypes w t mark) at
  perform-IsSound (set_dedup k enable) at =
      set_goes s h k _ (λ w t. set_dedup-HasTypes w t enable) at
  perform-IsSound (set_drop k enable count) at =
      set_goes s h k _ (λ w t. set_drop-HasTypes w t enable count) at
  perform-IsSound (set_reorder k enable count offset) at =
      set_goes s h k _ (λ w t. set_reorder-HasTypes w t enable count offset) at
  perform-IsSound (sol_update k m) ((a, o), low) = sol_update-Goes k m a low o
  perform-IsSound (set_rwnd k rwnd) at =
      set_goes s h k _ (λ w t. set_rwnd-HasTypes w t (if ltb rwnd 10 then 10 else rwnd)) at
  perform-IsSound (set_burst k enable) (a, o) = set_burst-Goes k a enable o
  perform-IsSound (set_adapt k start_time enable) (a, o) = set_adapt-Goes k a start_time enable o
  perform-IsSound (init_tcp_sched k args) ((a, o), first) = init_tcp_sched-Goes k a args first o
