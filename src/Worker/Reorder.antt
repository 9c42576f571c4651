-- ===== src/Worker/Reorder.antt =====
-- A worker that is set to reorder packets.
use emulator_test.Prelude.{
  ℕ, suc, ◌+◌, ◌%◌, ◌^◌, ◌≤◌, ◌<◌, ◌≡◌, refl, sym, ap, ◌∙◌, List, [], ◌∷◌, ◌++◌, map, length,
  append_assoc, append-nil, true, false, reverse, arith, ltb, if◌then◌else◌,
}
use emulator_test.Prelude.Int.{pos, negsuc}
use emulator_test.Worker.{
  Worker, Packet, Verdict, accepted, Input, packet, worker_callback, worker_set_reorder, run,
}
use emulator_test.Worker.Drop.{after}

abbrev pub ids : List Packet → List ℕ
ids = map (λ p. p.id)

-- While packets are still to be queued, and while the offset is still to be passed.
abbrev queueing : Worker → ℕ → ℕ → List ℕ → Worker
queueing ctx count offset held = record ctx {
  do_reorder = true;
  reorder_count = pos count;
  reorder_offset = pos (suc offset);
  reorder_ids = held;
}

abbrev passing : Worker → ℕ → ℕ → List ℕ → Worker
passing ctx below offset held = record ctx {
  do_reorder = true;
  reorder_count = negsuc below;
  reorder_offset = pos (suc offset);
  reorder_ids = held;
}

abbrev pub done_reordering : Worker → ℕ → Worker
done_reordering ctx below = record ctx {
  do_reorder = false;
  reorder_count = negsuc below;
  reorder_offset = pos 0;
  reorder_ids = [];
}

abbrev pub accept_all : Worker → List ℕ → List Verdict
accept_all ctx = map (λ id. accepted id ctx.mark)

module _ (ctx : Worker) (no_drop : ctx.do_drop ≡ false) where
  queue_one :
      (count offset : ℕ) (held : List ℕ) (p : Packet)
      → worker_callback (queueing ctx (suc count) offset held) p
        ≡ (queueing ctx count offset (held ++ p.id ∷ []), [])
  unfolding worker_callback
  queue_one count offset held p = rw no_drop refl

  -- The first packet that is passed on takes the counter below zero.
  pass_first :
      (offset : ℕ) (held : List ℕ) (p : Packet)
      → worker_callback (queueing ctx 0 (suc offset) held) p
        ≡ (passing ctx 0 offset held, accepted p.id ctx.mark ∷ [])
  unfolding worker_callback
  pass_first offset held p = rw no_drop refl

  pass_one :
      (below offset : ℕ) (held : List ℕ) (p : Packet)
      → worker_callback (passing ctx below (suc offset) held) p
        ≡ (passing ctx (suc below) offset held, accepted p.id ctx.mark ∷ [])
  unfolding worker_callback
  pass_one below offset held p = rw no_drop refl

  pass_last :
      (below : ℕ) (held : List ℕ) (p : Packet)
      → worker_callback (passing ctx below 0 held) p
        ≡ (done_reordering ctx (suc below), accepted p.id ctx.mark ∷ accept_all ctx (reverse held))
  unfolding worker_callback
  pass_last below held p = rw no_drop refl

  pass_only :
      (held : List ℕ) (p : Packet)
      → worker_callback (queueing ctx 0 0 held) p
        ≡ (done_reordering ctx 0, accepted p.id ctx.mark ∷ accept_all ctx (reverse held))
  unfolding worker_callback
  pass_only held p = rw no_drop refl

  run_queue :
      (offset : ℕ) (held : List ℕ) (ps : List Packet) (is : List Input)
      → run (queueing ctx (length ps) offset held) (map packet ps ++ is)
        ≡ run (queueing ctx 0 offset (held ++ ids ps)) is
  unfolding run
  run_queue offset held [] is = ap (λ h. run (queueing ctx 0 offset h) is) (sym (append-nil held))
  run_queue offset held (p ∷ ps) is = rw (queue_one (length ps) offset held p) (
      run_queue offset (held ++ p.id ∷ []) ps is
      ∙ ap (λ h. run (queueing ctx 0 offset h) is) (append_assoc held (p.id ∷ []) (ids ps)))

  run_pass :
      (below : ℕ) (held : List ℕ) (q : Packet) (qs : List Packet) (is : List Input)
      → run (passing ctx below (length qs) held) (map packet (q ∷ qs) ++ is)
        ≡ after
            (accept_all ctx (ids (q ∷ qs)) ++ accept_all ctx (reverse held))
            (run (done_reordering ctx (suc (below + length qs))) is)
  unfolding run
  run_pass below held q [] is =
      let none_left : below ≡ below + 0 = omega arith in
      rw (pass_last below held q) (
        ap
          (λ b.
            after (accepted q.id ctx.mark ∷ accept_all ctx (reverse held))
              (run (done_reordering ctx (suc b)) is))
          none_left)
  run_pass below held q (r ∷ qs) is =
      let one_less : suc (suc below + length qs) ≡ suc (below + suc (length qs)) = omega arith in
      rw (pass_one below (length qs) held q) (
        ap (after (accepted q.id ctx.mark ∷ [])) (
          run_pass (suc below) held r qs is
          ∙ ap
              (λ b.
                after (accept_all ctx (ids (r ∷ qs)) ++ accept_all ctx (reverse held))
                  (run (done_reordering ctx b) is))
              one_less))

  -- From the first packet that is passed on.
  run_offset :
      (held : List ℕ) (q : Packet) (qs : List Packet) (is : List Input)
      → run (queueing ctx 0 (length qs) held) (map packet (q ∷ qs) ++ is)
        ≡ after
            (accept_all ctx (ids (q ∷ qs)) ++ accept_all ctx (reverse held))
            (run (done_reordering ctx (length qs)) is)
  unfolding run
  run_offset held q [] is = rw (pass_only held q) refl
  run_offset held q (r ∷ qs) is =
      let one_less : suc (0 + length qs) ≡ suc (length qs) = omega arith in
      rw (pass_first (length qs) held q) (
        ap (after (accepted q.id ctx.mark ∷ [])) (
          run_pass 0 held r qs is
          ∙ ap
              (λ b.
                after (accept_all ctx (ids (r ∷ qs)) ++ accept_all ctx (reverse held))
                  (run (done_reordering ctx b) is))
              one_less))

  set_reorder-queueing :
      (count offset : ℕ)
      → count ≤ 1000
      → suc offset < 2 ^ 16
      → worker_set_reorder ctx true count (suc offset) ≡ queueing ctx count offset []
  unfolding worker_set_reorder
  set_reorder-queueing count offset hc ho =
      let same_count : (if ltb 1000 (count % 2 ^ 16) then 1000 else count % 2 ^ 16) ≡ count =
        ground arith in
      let same_offset : suc offset % 2 ^ 16 ≡ suc offset = omega arith in
      rw same_count (rw same_offset refl)

  -- A worker that drops nothing and is set to reorder as many packets as come first, at most 1000, behind
  -- as many as come next, at least one and less than 2^16, lets these pass in order and with the mark,
  -- and the last of them releases the first ones from the last to the first; then it reorders no more.
  pub run-worker_set_reorder :
      (ps : List Packet) (q : Packet) (qs : List Packet) (is : List Input)
      → length ps ≤ 1000
      → length (q ∷ qs) < 2 ^ 16
      → run
          (worker_set_reorder ctx true (length ps) (length (q ∷ qs)))
          (map packet ps ++ (map packet (q ∷ qs) ++ is))
        ≡ after
            (accept_all ctx (ids (q ∷ qs)) ++ accept_all ctx (reverse (ids ps)))
            (run (done_reordering ctx (length qs)) is)
  run-worker_set_reorder ps q qs is hc ho =
      rw (set_reorder-queueing (length ps) (length qs) hc ho)
        (run_queue (length qs) [] ps (map packet (q ∷ qs) ++ is) ∙ run_offset (ids ps) q qs is)
