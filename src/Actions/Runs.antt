-- ===== src/Actions/Runs.antt =====
-- Actions, ticks and packets in any order.
use mathlib.Core.Path.{subst}
use emulator_test.Prelude.{sym, ◌∙◌, ℕ, ◌^◌, ◌<◌, ◌≡◌, refl, some, Bool-cases, inl, inr, arith}
use emulator_test.Prelude.Int.{ℤ}
use emulator_test.Number.{Number}
use emulator_test.Worker.{Worker}
use emulator_test.Events.{Act, Link}
use emulator_test.Nfqueue.{Netfilter}
use emulator_test.Actions.{
  System, Tcp, Conversion, with_worker, tcp_schedule, tuned, faster, slower, no_link, perform,
}
use emulator_test.Worker.Types.{HasTypes, callback-HasTypes}
use emulator_test.Actions.Sound.{IsSound, Fits, Goes, IsSound-set}
use emulator_test.Actions.Kept.{hist_found, perform-IsSound}
use emulator_test.Worker.{Packet, worker_callback}

some-injective : (a b : System) → some a ≡ some b → a ≡ b
some-injective a b e = cc

module _ {ℓ} {F : Type ℓ} ⦃n : Number F⦄ (c : Conversion F) where
  -- Actions that fit the state they meet, ticks and packets, one after the other.
  pub data Runs (net : Netfilter) (s : System) : System → Type 0 where
    here : Runs net s s
    acts :
        {t u : System} (h : Act)
        → Runs net s t
        → Fits net t h
        → perform net h t ≡ some u
        → Runs net s u
    ticks : {t u : System} → Runs net s t → tcp_schedule c t ≡ some u → Runs net s u
    arrives :
        {t : System} (a : ℕ) (p : Packet)
        → Runs net s t
        → Runs net s (with_worker a (λ w. (worker_callback w p).0) t)

module _ {ℓ} {F : Type ℓ} ⦃n : Number F⦄ (c : Conversion F)
    (narrow : (x : F) → c.to_u16 x < 2 ^ 16) where
  faster_fits : (pace : ℤ) (window : ℕ) → faster c pace window < 2 ^ 16
  unfolding faster
  faster_fits pace window = narrow _

  slower_fits : (pace : ℤ) (window : ℕ) → slower c pace window < 2 ^ 16
  unfolding slower
  slower_fits pace window = narrow _

  tuned_fits : (tcp : Tcp) (link : Link) (w : Worker) → HasTypes w → tuned c tcp link w < 2 ^ 16
  unfolding tuned
  tuned_fits tcp link w t =
      ground (arith, faster_fits tcp.pace w.tune_rwnd, slower_fits tcp.pace w.tune_rwnd)

  tick-IsSound :
      (s : System) → IsSound s → (s' : System) × (tcp_schedule c s ≡ some s') × IsSound s'
  unfolding tcp_schedule
  tick-IsSound s h =
      let (a, wkctx, below) = h.tuned_worker in
      let (m, mark, low) = h.link_mark in
      let (l, found) = hist_found s.tcp.hist_param m h.links low in
      let keeps = λ (link : Link) (w : Worker) (t : HasTypes w).
        let r : HasTypes (record w { tune_rwnd = tuned c s.tcp link w; data_rcvd = 0 }) = record {
          mark = t.mark;
          tune_rwnd = tuned_fits s.tcp link w t;
          data_rcvd = omega arith;
        } in
        r in
      elim (Bool-cases ((s.memory a).do_burst)) [
        | inl burst ↦ (
          with_worker a (λ w. record w { tune_rwnd = tuned c s.tcp l w; data_rcvd = 0 }) s,
          rw (wkctx) (rw (burst, mark) (rw found refl)),
          IsSound-set s h a _ (keeps l),
        )
        | inr calm ↦ (
          with_worker a (λ w. record w { tune_rwnd = tuned c s.tcp no_link w; data_rcvd = 0 }) s,
          rw (wkctx) (rw calm refl),
          IsSound-set s h a _ (keeps no_link),
        )
      ]

  Runs-IsSound : (net : Netfilter) (s t : System) → IsSound s → Runs c net s t → IsSound t
  Runs-IsSound net s t h here = h
  Runs-IsSound net s t h (acts {t = r} act run fit done) =
      let (u, goes, sound) = perform-IsSound net r (Runs-IsSound net s r h run) act fit in
      subst IsSound (some-injective u t (sym goes ∙ done)) sound
  Runs-IsSound net s t h (ticks {t = r} run done) =
      let (u, goes, sound) = tick-IsSound r (Runs-IsSound net s r h run) in
      subst IsSound (some-injective u t (sym goes ∙ done)) sound
  Runs-IsSound net s _ h (arrives {t = r} a p run) =
      IsSound-set r (Runs-IsSound net s r h run) a _ (λ w t. callback-HasTypes w p t)

  -- From a sound system on, after any actions that fit the state they meet, ticks and packets, in any
  -- order: the mark, the window and the data counted of every worker fit their C types, the pointers
  -- of the queues and of the ticks lead to workers that have been allocated, and the current link is
  -- one of the three; and every action that fits returns, and so does a tick, and leaves this so. An
  -- action fits if its queue is open or, for INIT, can be opened, and its link is one of the three.
  pub Runs-Goes :
      (net : Netfilter) (s t : System) (h : Act)
      → IsSound s
      → Runs c net s t
      → Fits net t h
      → IsSound t × Goes net h t × ((u : System) × (tcp_schedule c t ≡ some u) × IsSound u)
  Runs-Goes net s t h sound run fit =
      let reached = Runs-IsSound net s t sound run in
      (reached, perform-IsSound net t reached h fit, tick-IsSound t reached)
