-- ===== src/Worker/Drop.antt =====
-- A worker that is set to drop packets.
use emulator_test.Prelude.{ℕ, suc, ◌≡◌, refl, ap, List, [], ◌∷◌, ◌++◌, map, length, true, false}
use emulator_test.Prelude.Int.{pos}
use emulator_test.Worker.{
  Worker, Packet, Verdict, dropped, Input, packet, is_positive, worker_callback, worker_set_drop,
  run,
}

-- The state behind the last packet that is dropped.
abbrev pub done_dropping : Worker → Worker
done_dropping ctx = record ctx { do_drop = false; drop_count = pos 0 }

-- Another output in front of a run's.
abbrev pub after : List Verdict → Worker × List Verdict → Worker × List Verdict
after out (ctx, rest) = (ctx, out ++ rest)

drop_one :
    (ctx : Worker) (n : ℕ) (p : Packet)
    → worker_callback (worker_set_drop ctx true (pos (suc n))) p
      ≡ (record ctx { do_drop = is_positive (pos n); drop_count = pos n }, dropped p.id ∷ [])
unfolding worker_callback worker_set_drop
drop_one ctx n p = refl

-- A worker that is set to drop as many packets as come, at least one, drops each of them, lets none of
-- them reach another handler, and then goes on as if it had not been set to drop.
pub run-worker_set_drop :
    (ctx : Worker) (p : Packet) (ps : List Packet) (is : List Input)
    → run (worker_set_drop ctx true (pos (length (p ∷ ps)))) (map packet (p ∷ ps) ++ is)
      ≡ after (map (λ q. dropped q.id) (p ∷ ps)) (run (done_dropping ctx) is)
unfolding run worker_set_drop is_positive
run-worker_set_drop ctx p [] is = rw (drop_one ctx 0 p) refl
run-worker_set_drop ctx p (q ∷ ps) is =
    rw (drop_one ctx (length (q ∷ ps)) p)
      (ap (after (dropped p.id ∷ [])) (run-worker_set_drop ctx q ps is))
