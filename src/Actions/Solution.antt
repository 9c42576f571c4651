-- ===== src/Actions/Solution.antt =====
-- The actions that a SOL_HO line schedules, on an open queue: what each of them changes of the flags, the
-- window and the interval of the ticks.
use mathlib.Core.Path.{subst}
use emulator_test.Prelude.{
  ℕ, suc, ◌<◌, ◌%◌, ◌^◌, ◌≡◌, refl, sym, ◌∙◌, List, [], ◌∷◌, Bool, true, false, some, arith, ltb,
  if◌then◌else◌,
}
use emulator_test.Prelude.Int.{ℤ, pos, ltb_ℤ}
use emulator_test.Worker.{
  Worker, worker_sol_update, worker_set_rwnd, worker_set_burst, worker_set_adapt, worker_set_dedup,
}
use emulator_test.Scheduler.{Event}
use emulator_test.Nfqueue.{Netfilter}
use emulator_test.Events.{
  Act, Link, sol_update, set_rwnd, set_dedup, set_burst, set_adapt, unsigned,
}
use emulator_test.Actions.{
  System, entry, hist_at, save, bits16, with_worker, current, action_sol_update, action_set_rwnd,
  action_set_burst, action_set_adapt, perform, perform_all,
}
use emulator_test.Actions.Setters.{IsOpen, on_worker_lem, memory-with_worker, perform_all-cons}

-- What the TCP solution does to a queue.
pub record View : Type 0 where
  pub dedup : Bool
  pub burst : Bool
  pub adapt : Bool
  pub window : ℕ
  pub interval : ℤ

pub record Flags (w : Worker) (v : View) : Type 0 where
  pub dedup : w.do_dedup ≡ v.dedup
  pub burst : w.do_burst ≡ v.burst
  pub adapt : w.do_adapt ≡ v.adapt
  pub window : w.tune_rwnd ≡ v.window

-- Neither a burst nor an adaptation.
abbrev pub updated_view : Bool → ℕ → ℤ → View
updated_view dedup window interval = record {
  dedup = dedup;
  burst = false;
  adapt = false;
  window = window;
  interval = interval;
}

module _ (net : Netfilter) (k a : ℕ) (links : List Link) (m : ℕ) (burst_interval : ℤ) where
  -- The current link is `m`.
  pub record Shows (s : System) (v : View) : Type 0 where
    pub opened : IsOpen s k a
    pub heuristics : s.tcp.hist_param ≡ links
    pub link_mark : s.tcp.mark ≡ pos m
    pub burst_ticks : s.tcp.burst_sample_interval ≡ burst_interval
    pub ticks : s.tcp.sample_interval ≡ v.interval
    pub flags : Flags (s.memory a) v

  -- Actions that return, and what shows behind them.
  abbrev pub ShowsAfter : List (Event Act) → System → View → Type 0
  ShowsAfter es s v = (s' : System) × (perform_all net es s ≡ some s') × Shows s' v

  abbrev pub Turns : Act → View → View → Type 0
  Turns h v v' =
      (s : System) → Shows s v → (s' : System) × (perform net h s ≡ some s') × Shows s' v'

  pub ShowsAfter-cons :
      (e : Event Act) (es : List (Event Act)) (s : System) (v v' w : View)
      → Turns e.handler v v'
      → Shows s v
      → ((s' : System) → Shows s' v' → ShowsAfter es s' w)
      → ShowsAfter (e ∷ es) s w
  ShowsAfter-cons e es s v v' w turn h rest =
      let (s1, one, h1) = turn s h in
      let (s2, more, h2) = rest s1 h1 in (s2, perform_all-cons net e es s s1 one ∙ more, h2)

  pub ShowsAfter-nil : (s : System) (v : View) → Shows s v → ShowsAfter [] s v
  unfolding perform_all
  ShowsAfter-nil s v h = (s, refl, h)

  -- A setter of the worker, with another interval.
  set-Shows :
      (s : System) (v v' : View) (f : Worker → Worker) (interval : ℤ)
      → Shows s v
      → Flags (f (s.memory a)) v'
      → interval ≡ v'.interval
      → Shows (record (with_worker a f s) { tcp = record s.tcp { sample_interval = interval } }) v'
  unfolding with_worker
  set-Shows s v v' f interval h flags same = record {
    opened = record {
      in_range = h.opened.in_range;
      queue = h.opened.queue;
      queue_entry = h.opened.queue_entry;
      worker_entry = h.opened.worker_entry;
    };
    heuristics = h.heuristics;
    link_mark = h.link_mark;
    burst_ticks = h.burst_ticks;
    ticks = same;
    flags = subst (λ w. Flags w v') (sym (memory-with_worker s a f)) flags;
  }

  pub set_dedup-Turns :
      (v : View) (enable : Bool) → Turns (set_dedup k enable) v (record v { dedup = enable })
  unfolding perform worker_set_dedup with_worker
  set_dedup-Turns v enable s h =
      let f = λ (w : Worker). worker_set_dedup w enable in
      (
        with_worker a f s,
        on_worker_lem s k a f h.opened,
        set-Shows s v _ f s.tcp.sample_interval h
            (record {
              dedup = refl;
              burst = h.flags.burst;
              adapt = h.flags.adapt;
              window = h.flags.window;
            })
            h.ticks,
      )

  -- A window below 10 becomes 10.
  pub set_rwnd-Turns :
      (v : View) (rwnd : ℕ) → rwnd < 10 → Turns (set_rwnd k rwnd) v (record v { window = 10 })
  unfolding perform worker_set_rwnd with_worker action_set_rwnd
  set_rwnd-Turns v rwnd small s h =
      let f = λ (w : Worker). worker_set_rwnd w (if ltb rwnd 10 then 10 else rwnd) in
      let below : ltb rwnd 10 ≡ true = ground arith in
      (
        with_worker a f s,
        on_worker_lem s k a f h.opened,
        set-Shows s v _ f s.tcp.sample_interval h
            (record {
              dedup = h.flags.dedup;
              burst = h.flags.burst;
              adapt = h.flags.adapt;
              window = rw below refl;
            })
            h.ticks,
      )

  module _ (link : Link) (w : ℕ) (found : hist_at (pos m) links ≡ some link)
      (rw_known : link.hist_rw ≡ pos w) (fits : w < 2 ^ 16) where
    window_bits : bits16 (link.hist_rw) % 2 ^ 16 ≡ w
    unfolding bits16 unsigned
    window_bits = rw rw_known (omega arith)

    current_lem :
        (s : System) (v : View) → Shows s v → current k s ≡ some ((s.memory a).tune_rwnd, link)
    unfolding current entry
    current_lem s v h =
        rw (h.opened.in_range, h.opened.worker_entry, h.link_mark, h.heuristics, found) refl

    pub burst_on-Turns :
        (v : View)
        → Turns
            (set_burst k true)
            v
            (record v { burst = true; adapt = false; window = w; interval = burst_interval })
    unfolding perform worker_set_burst with_worker action_set_burst
    burst_on-Turns v s h =
        let f = λ (x : Worker). worker_set_burst x true (bits16 link.hist_rw) in
        (
          record (with_worker a f s) {
            tcp = record s.tcp { sample_interval = s.tcp.burst_sample_interval };
          },
          rw (current_lem s v h) (rw (on_worker_lem s k a f h.opened) refl),
          set-Shows s v _ f s.tcp.burst_sample_interval h
              (record { dedup = h.flags.dedup; burst = refl; adapt = refl; window = window_bits })
              h.burst_ticks,
        )

    -- No window above the link's has been reached.
    pub burst_off-Turns :
        (v : View) → v.window ≡ w → Turns (set_burst k false) v (record v { burst = false })
    unfolding perform worker_set_burst with_worker action_set_burst
    burst_off-Turns v same s h =
        let f = λ (x : Worker). worker_set_burst x false (bits16 link.hist_rw) in
        let not_above : ltb_ℤ link.hist_rw (pos (s.memory a).tune_rwnd) ≡ false =
          rw (rw_known, h.flags.window, same) (ground arith) in
        (
          with_worker a f s,
          rw (current_lem s v h) (rw (on_worker_lem s k a f h.opened) (rw not_above refl)),
          set-Shows s v _ f s.tcp.sample_interval h
              (record {
                dedup = h.flags.dedup;
                burst = refl;
                adapt = h.flags.adapt;
                window = h.flags.window;
              })
              h.ticks,
        )

    pub adapt_on-Turns :
        (v : View) (start_time : ℕ)
        → Turns
            (set_adapt k start_time true)
            v
            (record v { burst = false; adapt = true; window = w; interval = link.rtt })
    unfolding perform worker_set_adapt with_worker action_set_adapt
    adapt_on-Turns v start_time s h =
        let f = λ (x : Worker). worker_set_adapt x true (bits16 link.hist_rw) in
        (
          record (with_worker a f s) { tcp = record s.tcp { sample_interval = link.rtt } },
          rw (current_lem s v h) (rw (on_worker_lem s k a f h.opened) refl),
          set-Shows s v _ f link.rtt h
              (record { dedup = h.flags.dedup; burst = refl; adapt = refl; window = window_bits })
              refl,
        )

    -- The first action of the line: the window of the link that is left is kept, if there is one.
    pub sol_update-Shows :
        (s : System) (v : ℕ)
        → IsOpen s k a
        → (s.memory a).tune_rwnd ≡ suc v
        → save s.tcp.mark (pos (suc v)) s.tcp.hist_param ≡ some links
        → s.tcp.burst_sample_interval ≡ burst_interval
        → (s' : System) × (perform net (sol_update k m) s ≡ some s')
          × Shows s' (updated_view (s.memory a).do_dedup w s.tcp.sample_interval)
    unfolding perform worker_sol_update with_worker action_sol_update entry
    sol_update-Shows s v o tuned saved interval =
        let f = λ (x : Worker). worker_sol_update x (bits16 link.hist_rw) in
        let above : ltb 0 (suc v) ≡ true = ground arith in
        let tcp = record s.tcp { hist_param = links; mark = pos m } in
        (
          with_worker a f (record s { tcp = tcp }),
          rw (o.in_range, o.worker_entry, tuned) (rw (saved, above) (rw found refl)),
          record {
            opened = record {
              in_range = o.in_range;
              queue = o.queue;
              queue_entry = o.queue_entry;
              worker_entry = o.worker_entry;
            };
            heuristics = refl;
            link_mark = refl;
            burst_ticks = interval;
            ticks = refl;
            flags =
                subst (λ x. Flags x (updated_view (s.memory a).do_dedup w s.tcp.sample_interval))
                  (sym (memory-with_worker (record s { tcp = tcp }) a f))
                  (record { dedup = refl; burst = refl; adapt = refl; window = window_bits });
          },
        )
