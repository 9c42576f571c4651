-- ===== src/Worker/Queue.antt =====
-- One packet in `worker_callback`: what it changes in `reorder_ids`.
use emulator_test.Prelude.{
  ℕ, zero, suc, ◌+◌, ◌≤◌, ◌≡◌, refl, sym, ap, List, [], ◌∷◌, ◌++◌, map, length, append_assoc,
  append-nil, Bool, true, false, not, reverse, length-append, Bool-cases, inl, inr, arith, ltb, leb,
  if◌then◌else◌, ◌&&◌, ◌||◌, ◌==◌,
}
use mathlib.Core.List.{Perm, map-append, reverse_perm, perm_append_singleton}
use mathlib.Core.List.Perm
use mathlib.Core.Path.{subst}
use emulator_test.Prelude.Int.{ℤ, pos, negsuc}
use emulator_test.Worker.{
  Worker, Packet, Verdict, accepted, dropped, rewritten, decrement, is_positive, Outcome,
  worker_handle_drop, worker_handle_reorder, worker_handle_dedup, worker_handle_rwnd, queue_or_pass,
  release, or_else, has_headers, ack_number, is_ack_only, header_length, window, worker_callback,
}

-- The packets that are still to be queued.
unfoldable pub to_queue : ℤ → ℕ
to_queue (pos n) = n
to_queue (negsuc n) = 0

-- The entries of `reorder_ids` and the places that are promised.
unfoldable pub room_needed : Worker → ℕ
unfolding to_queue
room_needed ctx =
    length ctx.reorder_ids + (if ctx.do_reorder then to_queue ctx.reorder_count else 0)

-- WORKER_MAX_REORDER_COUNT
unfoldable pub IsBounded : Worker → Type 0
unfolding room_needed
IsBounded ctx = room_needed ctx ≤ 1000

-- A worker that reorders has a packet to queue or to pass.
unfoldable pub IsWaiting : Worker → Type 0
IsWaiting ctx =
    (ctx.do_reorder && not (is_positive ctx.reorder_count || is_positive ctx.reorder_offset))
    ≡ false

pub id_of : Verdict → ℕ
id_of (dropped id) = id
id_of (accepted id mark) = id
id_of (rewritten id mark window) = id

-- A handler that has not handled the packet owes it an answer.
answered_if : Packet → Bool → List ℕ
answered_if p handled = if handled then p.id ∷ [] else []

unfoldable pub Kept : Worker → Packet → Outcome → Type 0
unfolding id_of answered_if
Kept ctx p (ctx', out, handled) =
    (IsBounded ctx → IsBounded ctx')
    × (IsWaiting ctx
        → IsWaiting ctx'
          × Perm (map id_of out ++ ctx'.reorder_ids) (ctx.reorder_ids ++ answered_if p handled))

pub nothing_new : (held : List ℕ) → Perm held (held ++ [])
nothing_new held = rw (append-nil held) Perm.rfl

one_new : (held : List ℕ) (x : ℕ) → Perm (x ∷ held) (held ++ x ∷ [])
one_new held x = Perm.symm (perm_append_singleton x held)

worker_handle_drop-Kept : (ctx : Worker) (p : Packet) → Kept ctx p (worker_handle_drop ctx p)
unfolding Kept worker_handle_drop IsWaiting IsBounded
worker_handle_drop-Kept ctx p = elim (Bool-cases ctx.do_drop) [
  | inl on ↦ elim (Bool-cases (is_positive ctx.drop_count)) [
    | inl more ↦ rw (on, more) ((λ b. b), λ w. (w, one_new ctx.reorder_ids p.id))
    | inr done ↦ rw (on, done) ((λ b. b), λ w. (w, nothing_new ctx.reorder_ids))
  ]
  | inr off ↦ rw off ((λ b. b), λ w. (w, nothing_new ctx.reorder_ids))
]

worker_handle_dedup-Kept : (ctx : Worker) (p : Packet) → Kept ctx p (worker_handle_dedup ctx p)
unfolding Kept worker_handle_dedup IsWaiting IsBounded
worker_handle_dedup-Kept ctx p =
    let test =
      ctx.do_dedup
      && has_headers p.payload
      && (ack_number p.payload == ctx.last_ack)
      && is_ack_only p.payload in
    elim (Bool-cases test) [
      | inl same ↦ rw same ((λ b. b), λ w. (w, one_new ctx.reorder_ids p.id))
      | inr other ↦ rw other ((λ b. b), λ w. (w, nothing_new ctx.reorder_ids))
    ]

worker_handle_rwnd-Kept : (ctx : Worker) (p : Packet) → Kept ctx p (worker_handle_rwnd ctx p)
unfolding Kept worker_handle_rwnd IsWaiting IsBounded
worker_handle_rwnd-Kept ctx p =
    let test = ctx.do_rwnd && leb 20 (header_length p.payload) && has_headers p.payload in
    elim (Bool-cases test) [
      | inl on ↦ elim (Bool-cases (ltb ctx.tune_rwnd (window p.payload))) [
        | inl larger ↦ rw (on, larger) ((λ b. b), λ w. (w, one_new ctx.reorder_ids p.id))
        | inr small ↦ rw (on, small) ((λ b. b), λ w. (w, nothing_new ctx.reorder_ids))
      ]
      | inr off ↦ rw off ((λ b. b), λ w. (w, nothing_new ctx.reorder_ids))
    ]

map_id-accepted : (ids : List ℕ) (mark : ℕ) → map id_of (map (λ id. accepted id mark) ids) ≡ ids
unfolding id_of
map_id-accepted [] mark = refl
map_id-accepted (id ∷ ids) mark = ap (◌∷◌ id) (map_id-accepted ids mark)

released_all :
    (ids : List ℕ) (mark : ℕ)
    → Perm (map id_of (map (λ id. accepted id mark) (reverse ids)) ++ []) ids
released_all ids mark = rw (append-nil, map_id-accepted (reverse ids) mark) (reverse_perm ids)

last_released :
    (ids : List ℕ) (id mark : ℕ)
    → Perm (id ∷ map id_of (map (λ id. accepted id mark) (reverse ids)) ++ []) (ids ++ id ∷ [])
last_released ids id mark = Perm.trans (Perm.cons id (released_all ids mark)) (one_new ids id)

to_queue-decrement :
    (count : ℤ) → is_positive count ≡ true → to_queue count ≡ suc (to_queue (decrement count))
unfolding to_queue decrement is_positive
to_queue-decrement (pos zero) h = absurd cc
to_queue-decrement (pos (suc n)) h = refl
to_queue-decrement (negsuc n) h = absurd cc

to_queue-decrement-zero : (count : ℤ) → is_positive count ≡ false → to_queue (decrement count) ≡ 0
unfolding to_queue decrement is_positive
to_queue-decrement-zero (pos zero) h = refl
to_queue-decrement-zero (pos (suc n)) h = absurd cc
to_queue-decrement-zero (negsuc n) h = refl

room_queue :
    (held : List ℕ) (x : ℕ) (count : ℤ)
    → is_positive count ≡ true
    → length held + to_queue count ≤ 1000
    → length (held ++ x ∷ []) + to_queue (decrement count) ≤ 1000
room_queue held x count h room =
    let longer = length-append held (x ∷ []) in
    let one_less = to_queue-decrement count h in rw longer (omega arith)

room_pass :
    (held : List ℕ) (count : ℤ)
    → is_positive count ≡ false
    → length held + to_queue count ≤ 1000
    → length held + to_queue (decrement count) ≤ 1000
room_pass held count h room = rw (to_queue-decrement-zero count h) (omega arith)

decrement-not_positive : (n : ℤ) → is_positive n ≡ false → is_positive (decrement n) ≡ false
unfolding decrement is_positive
decrement-not_positive (pos zero) h = refl
decrement-not_positive (pos (suc n)) h = absurd cc
decrement-not_positive (negsuc n) h = refl

or_true : (b c : Bool) → c ≡ true → not (b || c) ≡ false
or_true true c h = refl
or_true false c h = rw h refl

worker_handle_reorder-Kept : (ctx : Worker) (p : Packet) → Kept ctx p (worker_handle_reorder ctx p)
unfolding Kept worker_handle_reorder queue_or_pass release IsWaiting IsBounded room_needed
worker_handle_reorder-Kept ctx p =
    let held = ctx.reorder_ids in
    let count = ctx.reorder_count in
    let offset = ctx.reorder_offset in
    elim (Bool-cases ctx.do_reorder) [
      | inr off ↦ rw off ((λ b. b), λ w. (w, nothing_new held))
      | inl on ↦ elim (Bool-cases (is_positive count)) [
        | inl queue ↦ elim (Bool-cases (is_positive offset)) [
          | inl wait ↦
              rw (on, queue, wait)
                ((λ b. room_queue held p.id count queue b), λ w. (or_true _ _ wait, Perm.rfl))
          | inr now ↦
              rw (on, queue, now)
                ((λ b. omega arith), λ w. (refl, released_all (held ++ p.id ∷ []) ctx.mark))
        ]
        | inr pass ↦ elim (Bool-cases (is_positive offset)) [
          | inl wait ↦ elim (Bool-cases (is_positive (decrement offset))) [
            | inl more ↦
                rw (on, pass, wait, more)
                  ((λ b. room_pass held count pass b), λ w. (or_true _ _ more, one_new held p.id))
            | inr last ↦
                rw (on, pass, wait, last)
                  ((λ b. omega arith), λ w. (refl, last_released held p.id ctx.mark))
          ]
          | inr now ↦
              rw (on, pass, now, decrement-not_positive offset now)
                ((λ b. omega arith), λ w. let never : true ≡ false = w in absurd cc)
        ]
      ]
    ]

-- What is answered or held after two steps, from what is after each.
pub two_steps :
    (out out' : List Verdict) (held held' held'' new new' : List ℕ)
    → Perm (map id_of out ++ held') (held ++ new)
    → Perm (map id_of out' ++ held'') (held' ++ new')
    → Perm (map id_of (out ++ out') ++ held'') (held ++ (new ++ new'))
two_steps out out' held held' held'' new new' first second =
    let ids = map id_of out in
    rw (map-append id_of out out', append_assoc ids (map id_of out') held'')
      (Perm.trans (Perm.append_left ids second) (
        rw (sym (append_assoc ids held' new'), sym (append_assoc held new new'))
          (Perm.append_right new' first)))

or_else-Kept :
    (ctx : Worker) (p : Packet) (o : Outcome) (next : Worker → Outcome)
    → Kept ctx p o
    → ((c : Worker) → Kept c p (next c))
    → Kept ctx p (or_else o next)
unfolding Kept or_else
or_else-Kept ctx p (c, out, true) next k ks = k
or_else-Kept ctx p (c, out, false) next (room, kept) ks =
    let (room', kept') = ks c in
    (
      (λ b. room' (room b)),
      λ w.
          let (w', held) = kept w in
          let (w'', held') = kept' w' in
          (w'', two_steps out _ ctx.reorder_ids c.reorder_ids _ [] _ held held'),
    )

-- The handlers of `worker_callback`, and what it answers when none of them has.
handlers : Worker → Packet → Outcome
handlers ctx p = or_else (worker_handle_drop ctx p) (λ c.
    or_else (worker_handle_reorder c p)
      (λ c. or_else (worker_handle_dedup c p) (λ c. worker_handle_rwnd c p)))

accept_last : Packet → Outcome → Outcome
accept_last p (c, out, true) = (c, out, true)
accept_last p (c, out, false) = (c, out ++ accepted p.id c.mark ∷ [], true)

accept_last-Kept :
    (ctx : Worker) (p : Packet) (o : Outcome) → Kept ctx p o → Kept ctx p (accept_last p o)
unfolding Kept accept_last
accept_last-Kept ctx p (c, out, true) k = k
accept_last-Kept ctx p (c, out, false) (room, kept) = (
  room,
  λ w.
      let (w', held) = kept w in
      (
        w',
        two_steps out (accepted p.id c.mark ∷ []) ctx.reorder_ids c.reorder_ids _ [] _ held
            (one_new c.reorder_ids p.id),
      ),
)

handlers-Kept : (ctx : Worker) (p : Packet) → Kept ctx p (handlers ctx p)
unfolding handlers
handlers-Kept ctx p = or_else-Kept ctx p _ _ (worker_handle_drop-Kept ctx p) (λ c.
    or_else-Kept c p _ _ (worker_handle_reorder-Kept c p)
      (λ c. or_else-Kept c p _ _ (worker_handle_dedup-Kept c p) (λ c. worker_handle_rwnd-Kept c p)))

last_answer :
    (p : Packet) (o : Outcome)
    → ◌≡◌ {A = Worker × List Verdict}
        (let (c, out, handled) = o in
          if handled then (c, out) else (c, out ++ accepted p.id c.mark ∷ []))
        (let (c, out, handled) = accept_last p o in (c, out))
unfolding accept_last
last_answer p (c, out, true) = refl
last_answer p (c, out, false) = refl

all_answered : (p : Packet) (o : Outcome) → (accept_last p o).2 ≡ true
unfolding accept_last
all_answered p (c, out, true) = refl
all_answered p (c, out, false) = refl

-- Every packet is answered or held, unless a reordering worker has neither a packet to queue nor one to
-- pass.
pub worker_callback-Kept :
    (ctx : Worker) (p : Packet)
    → (let (ctx', out) = worker_callback ctx p in Kept ctx p (ctx', out, true))
unfolding worker_callback handlers Kept
worker_callback-Kept ctx p =
    let o = accept_last p (handlers ctx p) in
    let kept = accept_last-Kept ctx p (handlers ctx p) (handlers-Kept ctx p) in
    let kept' = subst (λ h. Kept ctx p (o.0, o.1, h)) (all_answered p (handlers ctx p)) kept in
    subst (λ r. Kept ctx p (r.0, r.1, true)) (sym (last_answer p (handlers ctx p))) kept'
