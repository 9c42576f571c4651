-- ===== src/Worker/Ack.antt =====
-- The acknowledgements that a worker sees: `data_rcvd`, `last_ack`, the duplicates and the window.
use emulator_test.Prelude.{
  ℕ, ◌+◌, ◌-◌, ◌%◌, ◌^◌, ◌<◌, ◌≡◌, refl, List, [], ◌∷◌, Bool, true, false, Bool-cases, inl, inr,
  ◌⊎◌, arith, ltb, leb, if◌then◌else◌, ◌&&◌, ◌==◌,
}
use emulator_test.Worker.{
  Worker, Packet, Verdict, accepted, dropped, rewritten, packet, worker_handle_drop,
  worker_handle_reorder, worker_handle_dedup, worker_handle_rwnd, has_headers, ack_number,
  is_ack_only, header_length, window, count_data, worker_callback, run, Input,
}

-- The packet is long enough for its headers, and its IP header for itself.
unfoldable pub IsSegment : Packet → Type 0
IsSegment p = (leb 20 (header_length p.payload) && has_headers p.payload) ≡ true

-- The window that the receiver of a packet sees.
pub sent_window : Packet → Verdict → ℕ
sent_window p (dropped id) = 0
sent_window p (accepted id mark) = window p.payload
sent_window p (rewritten id mark w) = w

unfoldable pub is_duplicate : Worker → Packet → Bool
is_duplicate ctx p =
    ctx.do_dedup
    && has_headers p.payload
    && (ack_number p.payload == ctx.last_ack)
    && is_ack_only p.payload

drop_off :
    (ctx : Worker) (p : Packet) → ctx.do_drop ≡ false → worker_handle_drop ctx p ≡ (ctx, [], false)
unfolding worker_handle_drop
drop_off ctx p off = simp (off)

reorder_off :
    (ctx : Worker) (p : Packet)
    → ctx.do_reorder ≡ false
    → worker_handle_reorder ctx p ≡ (ctx, [], false)
unfolding worker_handle_reorder
reorder_off ctx p off = simp (off)

dedup_on :
    (ctx : Worker) (p : Packet)
    → is_duplicate ctx p ≡ true
    → worker_handle_dedup ctx p ≡ (ctx, dropped p.id ∷ [], true)
unfolding worker_handle_dedup is_duplicate
dedup_on ctx p same = simp (same)

dedup_off :
    (ctx : Worker) (p : Packet)
    → is_duplicate ctx p ≡ false
    → worker_handle_dedup ctx p ≡ (ctx, [], false)
unfolding worker_handle_dedup is_duplicate
dedup_off ctx p other = simp (other)

-- The rest of the state is that of a worker that tunes the window.
rwnd_large :
    (ctx : Worker) (p : Packet)
    → ctx.do_rwnd ≡ true
    → IsSegment p
    → ltb ctx.tune_rwnd (window p.payload) ≡ true
    → worker_handle_rwnd ctx p
      ≡ (count_data ctx (ack_number p.payload), rewritten p.id ctx.mark ctx.tune_rwnd ∷ [], true)
unfolding worker_handle_rwnd IsSegment
rwnd_large ctx p on segment large = simp (on, segment, large)

rwnd_small :
    (ctx : Worker) (p : Packet)
    → ctx.do_rwnd ≡ true
    → IsSegment p
    → ltb ctx.tune_rwnd (window p.payload) ≡ false
    → worker_handle_rwnd ctx p ≡ (count_data ctx (ack_number p.payload), [], false)
unfolding worker_handle_rwnd IsSegment
rwnd_small ctx p on segment small = simp (on, segment, small)

module _ (ctx : Worker) (no_drop : ctx.do_drop ≡ false) (no_reorder : ctx.do_reorder ≡ false) where
  duplicate_dropped :
      (p : Packet) → is_duplicate ctx p ≡ true → worker_callback ctx p ≡ (ctx, dropped p.id ∷ [])
  unfolding worker_callback
  duplicate_dropped p same =
      rw (drop_off ctx p no_drop, reorder_off ctx p no_reorder, dedup_on ctx p same) refl

  module _ (tunes : ctx.do_rwnd ≡ true) (p : Packet) (segment : IsSegment p)
      (other : is_duplicate ctx p ≡ false) where
    passed_large :
        ltb ctx.tune_rwnd (window p.payload) ≡ true
        → worker_callback ctx p
          ≡ (count_data ctx (ack_number p.payload), rewritten p.id ctx.mark ctx.tune_rwnd ∷ [])
    unfolding worker_callback
    passed_large large =
        rw
          (
            drop_off ctx p no_drop,
            reorder_off ctx p no_reorder,
            dedup_off ctx p other,
            rwnd_large ctx p tunes segment large,
          )
          refl

    passed_small :
        ltb ctx.tune_rwnd (window p.payload) ≡ false
        → worker_callback ctx p
          ≡ (count_data ctx (ack_number p.payload), accepted p.id ctx.mark ∷ [])
    unfolding worker_callback count_data
    passed_small small =
        rw
          (
            drop_off ctx p no_drop,
            reorder_off ctx p no_reorder,
            dedup_off ctx p other,
            rwnd_small ctx p tunes segment small,
          )
          refl

pub min : ℕ → ℕ → ℕ
min a b = if ltb a b then a else b

-- A worker that only tunes the window and drops duplicates answers a segment that is long enough
-- for its headers once: it drops it if it has no data, repeats the last acknowledgement and
-- duplicates are to be dropped, and else passes it with the smaller one of its window and
-- `tune_rwnd`, and counts its acknowledgement.
pub worker_callback-window :
    (ctx : Worker) (p : Packet)
    → ctx.do_drop ≡ false
    → ctx.do_reorder ≡ false
    → ctx.do_rwnd ≡ true
    → IsSegment p
    → ((is_duplicate ctx p ≡ true) × (worker_callback ctx p ≡ (ctx, dropped p.id ∷ [])))
      ⊎ ((is_duplicate ctx p ≡ false)
          × (v : Verdict) × (worker_callback ctx p
              ≡ (count_data ctx (ack_number p.payload), v ∷ []))
          × (sent_window p v ≡ min ctx.tune_rwnd (window p.payload)))
unfolding sent_window min
worker_callback-window ctx p no_drop no_reorder tunes segment =
    elim (Bool-cases (is_duplicate ctx p)) [
      | inl same ↦ inl (same, duplicate_dropped ctx no_drop no_reorder p same)
      | inr other ↦ elim (Bool-cases (ltb ctx.tune_rwnd (window p.payload))) [
        | inl large ↦ inr (
          other,
          _,
          passed_large ctx no_drop no_reorder tunes p segment other large,
          rw large refl,
        )
        | inr small ↦ inr (
          other,
          _,
          passed_small ctx no_drop no_reorder tunes p segment other small,
          rw small refl,
        )
      ]
    ]

-- Segments with how far each advances a stream whose position is `at`: the acknowledgement is the new
-- position's low 32 bits.
unfoldable pub IsStream : ℕ → List (ℕ × Packet) → Type 0
IsStream at [] = Unit
IsStream at ((advance, p) ∷ rest) =
    (advance < 2 ^ 32)
    × IsSegment p
    × (ack_number p.payload ≡ (at + advance) % 2 ^ 32)
    × IsStream (at + advance) rest

pub total : List (ℕ × Packet) → ℕ
total [] = 0
total ((advance, p) ∷ rest) = advance + total rest

unfoldable pub inputs_of : List (ℕ × Packet) → List Input
inputs_of [] = []
inputs_of ((advance, p) ∷ rest) = packet p ∷ inputs_of rest

-- What `worker_callback` leaves of a state that has counted up to `at`.
unfoldable pub Counted : Worker → ℕ → ℕ → Type 0
Counted ctx at counted =
    (ctx.do_drop ≡ false)
    × (ctx.do_reorder ≡ false)
    × (ctx.do_rwnd ≡ true)
    × (ctx.last_ack ≡ at % 2 ^ 32)
    × (ctx.data_rcvd ≡ counted % 2 ^ 64)

count_one :
    (last at advance rcvd counted : ℕ)
    → advance < 2 ^ 32
    → last ≡ at % 2 ^ 32
    → rcvd ≡ counted % 2 ^ 64
    → (rcvd + ((at + advance) % 2 ^ 32 + 2 ^ 32 - last) % 2 ^ 32) % 2 ^ 64
      ≡ (counted + advance) % 2 ^ 64
count_one last at advance rcvd counted small hl hr =
    let same : ((at + advance) % 2 ^ 32 + 2 ^ 32 - last) % 2 ^ 32 ≡ advance = omega arith in
    rw same (omega arith)

repeated :
    (ack last at advance : ℕ)
    → advance < 2 ^ 32
    → ack ≡ (at + advance) % 2 ^ 32
    → last ≡ at % 2 ^ 32
    → ack ≡ last
    → advance ≡ 0
repeated ack last at advance small ha hl same = omega arith

duplicate-eq :
    (ctx : Worker) (p : Packet) → is_duplicate ctx p ≡ true → ack_number p.payload ≡ ctx.last_ack
unfolding is_duplicate
duplicate-eq ctx p same = ground (arith, same)

worker_callback-Counted :
    (ctx : Worker) (at counted advance : ℕ) (p : Packet)
    → advance < 2 ^ 32
    → IsSegment p
    → ack_number p.payload ≡ (at + advance) % 2 ^ 32
    → Counted ctx at counted
    → Counted (worker_callback ctx p).0 (at + advance) (counted + advance)
unfolding count_data Counted
worker_callback-Counted ctx at counted advance p small segment ack
      (no_drop, no_reorder, tunes, last, rcvd) =
    elim (worker_callback-window ctx p no_drop no_reorder tunes segment) [
      | inl (same, result) ↦
          let none_new = repeated _ _ at advance small ack last (duplicate-eq ctx p same) in
          rw result (no_drop, no_reorder, tunes, omega arith, omega arith)
      | inr (other, v, result, seen) ↦ rw result (
        no_drop,
        no_reorder,
        tunes,
        ack,
        rw ack (count_one ctx.last_ack at advance ctx.data_rcvd counted small last rcvd),
      )
    ]

-- A worker tunes the window and neither drops nor reorders, its `last_ack` is the low 32 bits of
-- a stream's position and its `data_rcvd` what has been counted modulo 2^64, and its packets are
-- long enough for their headers and advance the stream by less than 2^32 each: then `data_rcvd`
-- grows by the whole advance modulo 2^64, however often the acknowledgement number passes 2^32
-- and whether or not duplicates are dropped, and `last_ack` is the low 32 bits of the new
-- position.
pub run-data_rcvd :
    (ctx : Worker) (at counted : ℕ) (stream : List (ℕ × Packet))
    → IsStream at stream
    → Counted ctx at counted
    → Counted (run ctx (inputs_of stream)).0 (at + total stream) (counted + total stream)
unfolding run IsStream total inputs_of
run-data_rcvd ctx at counted [] s c =
    let at_end : at ≡ at + 0 = omega arith in
    let counted_end : counted ≡ counted + 0 = omega arith in rw⁻¹ (at_end, counted_end) c
run-data_rcvd ctx at counted ((advance, p) ∷ rest) (small, segment, ack, more) c =
    let next =
      run-data_rcvd (worker_callback ctx p).0 (at + advance) (counted + advance) rest more
        (worker_callback-Counted ctx at counted advance p small segment ack c) in
    let at_end : at + advance + total rest ≡ at + (advance + total rest) = omega arith in
    let counted_end : counted + advance + total rest ≡ counted + (advance + total rest) =
      omega arith in
    rw⁻¹ (at_end, counted_end) next
