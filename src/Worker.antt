-- ===== src/Worker.antt =====
-- The packet worker, src/worker.c: a worker's state, the functions that set it and `worker_callback`. Each
-- function holds the lock of what it reads, so that it is one step on the state. libnetfilter_queue's
-- verdicts are the output. A C flag is taken by its truth value. `nfq_get_payload` is taken to give the
-- packet.
pub mod Drop
pub mod Reorder
pub mod Queue
pub mod Held
pub mod Ack
pub mod Types
mod Tests
use emulator_test.Prelude.{
  ℕ, zero, suc, ◌+◌, ◌-◌, ◌*◌, ◌/◌, ◌%◌, ◌^◌, List, [], ◌∷◌, ◌++◌, map, length, get_elem?, Bool,
  true, false, not, ◌&&◌, leb, ltb, ◌==◌, Option, none, some, if◌then◌else◌, reverse,
}
use emulator_test.Prelude.Int.{ℤ, pos, negsuc}

-- `reorder_ids` are the entries below `reorder_id_cur`, which is their number.
pub record Worker : Type 0 where
  pub mark : ℕ
  pub do_reorder : Bool
  pub reorder_count : ℤ
  pub reorder_offset : ℤ
  pub reorder_ids : List ℕ
  pub do_drop : Bool
  pub drop_count : ℤ
  pub do_rwnd : Bool
  pub tune_rwnd : ℕ
  pub do_burst : Bool
  pub data_rcvd : ℕ
  pub do_adapt : Bool
  pub do_dedup : Bool
  pub last_ack : ℕ

-- A packet of the queue: its number and the bytes that netfilter has copied.
pub record Packet : Type 0 where
  pub id : ℕ
  pub payload : List ℕ

-- `nfq_set_verdict` with NF_DROP, `nfq_set_verdict2` with NF_ACCEPT and the mark, and the same with a new
-- window in the packet.
pub data Verdict : Type 0 where
  dropped : ℕ → Verdict
  accepted : (id mark : ℕ) → Verdict
  rewritten : (id mark window : ℕ) → Verdict

-- `n--` and `n > 0`
unfoldable pub decrement : ℤ → ℤ
decrement (pos zero) = negsuc 0
decrement (pos (suc n)) = pos n
decrement (negsuc n) = negsuc (suc n)

unfoldable pub is_positive : ℤ → Bool
is_positive (pos zero) = false
is_positive (pos (suc n)) = true
is_positive (negsuc n) = false

-- What a handler does: the state, the verdicts and `handled`.
abbrev pub Outcome : Type 0
Outcome = Worker × List Verdict × Bool

worker_handle_drop : Worker → Packet → Outcome
unfolding decrement is_positive
worker_handle_drop ctx p =
    if ctx.do_drop
    then (let left = decrement ctx.drop_count in
        let ctx' = record ctx { drop_count = left; do_drop = is_positive left } in
        if is_positive ctx.drop_count then (ctx', dropped p.id ∷ [], true) else (ctx', [], false))
    else (ctx, [], false)

-- The packet is queued, passed on, or neither, and the two counters go down.
queue_or_pass : Worker → Packet → Worker × List Verdict
unfolding decrement is_positive
queue_or_pass ctx p =
    let counted = record ctx { reorder_count = decrement ctx.reorder_count } in
    if is_positive ctx.reorder_count
    then (record counted { reorder_ids = ctx.reorder_ids ++ p.id ∷ [] }, [])
    else (
      record counted { reorder_offset = decrement ctx.reorder_offset },
      if is_positive ctx.reorder_offset then accepted p.id ctx.mark ∷ [] else [],
    )

-- The queued packets leave from the last to the first.
release : Worker → Worker × List Verdict
release ctx = (
  record ctx { do_reorder = false; reorder_ids = [] },
  map (λ id. accepted id ctx.mark) (reverse ctx.reorder_ids),
)

worker_handle_reorder : Worker → Packet → Outcome
unfolding queue_or_pass release is_positive
worker_handle_reorder ctx p =
    if ctx.do_reorder
    then (let (ctx', passed) = queue_or_pass ctx p in
        if is_positive ctx'.reorder_offset
        then (ctx', passed, true)
        else (let (ctx'', released) = release ctx' in (ctx'', passed ++ released, true)))
    else (ctx, [], false)

-- The bytes of a header, from the most significant one on.
byte : List ℕ → ℕ → ℕ
byte bytes i = elim (get_elem? bytes i) [ none ↦ 0 | some b ↦ b ]

be16 : List ℕ → ℕ → ℕ
unfolding byte
be16 bytes i = byte bytes i * 256 + byte bytes (i + 1)

be32 : List ℕ → ℕ → ℕ
unfolding be16
be32 bytes i = be16 bytes i * 65536 + be16 bytes (i + 2)

-- `iph->ihl << 2` and `tcph->doff << 2`
pub header_length : List ℕ → ℕ
unfolding byte
header_length bytes = byte bytes 0 % 16 * 4

data_offset : List ℕ → ℕ
unfolding byte header_length
data_offset bytes = byte bytes (header_length bytes + 12) / 16 * 4

pub ack_number : List ℕ → ℕ
unfolding be32 header_length
ack_number bytes = be32 bytes (header_length bytes + 8)

pub window : List ℕ → ℕ
unfolding be16 header_length
window bytes = be16 bytes (header_length bytes + 14)

-- No byte behind the two headers.
pub is_ack_only : List ℕ → Bool
unfolding header_length data_offset
is_ack_only bytes = leb (length bytes) (header_length bytes + data_offset bytes)

-- `sizeof(struct iphdr)` and `sizeof(struct tcphdr)` are 20.
pub has_headers : List ℕ → Bool
unfolding header_length
has_headers bytes = leb 20 (length bytes) && leb (header_length bytes + 20) (length bytes)

worker_handle_dedup : Worker → Packet → Outcome
worker_handle_dedup ctx p =
    if ctx.do_dedup
      && has_headers p.payload
      && (ack_number p.payload == ctx.last_ack)
      && is_ack_only p.payload
    then (ctx, dropped p.id ∷ [], true)
    else (ctx, [], false)

-- `ack - last_ack` on 32 bits, added on 64 bits.
pub count_data : Worker → ℕ → Worker
count_data ctx ack = record ctx {
  data_rcvd = (ctx.data_rcvd + (ack + 2 ^ 32 - ctx.last_ack) % 2 ^ 32) % 2 ^ 64;
  last_ack = ack;
}

worker_handle_rwnd : Worker → Packet → Outcome
unfolding count_data header_length
worker_handle_rwnd ctx p =
    if ctx.do_rwnd && leb 20 (header_length p.payload) && has_headers p.payload
    then (if ltb ctx.tune_rwnd (window p.payload)
        then (
          count_data ctx (ack_number p.payload),
          rewritten p.id ctx.mark ctx.tune_rwnd ∷ [],
          true,
        )
        else (count_data ctx (ack_number p.payload), [], false))
    else (ctx, [], false)

-- One handler after the other, until one has handled the packet.
or_else : Outcome → (Worker → Outcome) → Outcome
or_else (ctx, out, true) next = (ctx, out, true)
or_else (ctx, out, false) next =
    let (ctx', out', handled) = next ctx in (ctx', out ++ out', handled)

-- `worker_callback`, less its log.
unfoldable pub worker_callback : Worker → Packet → Worker × List Verdict
unfolding worker_handle_drop worker_handle_reorder worker_handle_dedup worker_handle_rwnd or_else
worker_callback ctx p =
    let (ctx', out, handled) = or_else (worker_handle_drop ctx p) (λ c.
      or_else (worker_handle_reorder c p)
        (λ c. or_else (worker_handle_dedup c p) (λ c. worker_handle_rwnd c p))) in
    if handled then (ctx', out) else (ctx', out ++ accepted p.id ctx'.mark ∷ [])

-- `worker_init_ctx`, on memory that holds anything.
unfoldable pub worker_init_ctx : Worker → Worker
worker_init_ctx memory = record memory {
  mark = 0;
  do_rwnd = false;
  do_dedup = false;
  do_reorder = false;
  do_drop = false;
  do_adapt = false;
  do_burst = false;
}

unfoldable pub worker_set_mark : Worker → ℕ → Worker
worker_set_mark ctx mark = record ctx { mark = mark % 2 ^ 32 }

unfoldable pub worker_sol_update : Worker → ℕ → Worker
worker_sol_update ctx rwnd = record ctx {
  do_adapt = false;
  do_burst = false;
  tune_rwnd = rwnd % 2 ^ 16;
}

unfoldable pub worker_set_rwnd : Worker → ℕ → Worker
worker_set_rwnd ctx rwnd = record ctx { tune_rwnd = rwnd % 2 ^ 16 }

-- `enable` is 0 or 1 wherever it is called.
unfoldable pub worker_set_burst : Worker → Bool → ℕ → Worker
worker_set_burst ctx enable rwnd =
    if enable
    then record ctx { do_burst = true; do_adapt = false; data_rcvd = 0; tune_rwnd = rwnd % 2 ^ 16 }
    else record ctx { do_burst = false }

unfoldable pub worker_set_adapt : Worker → Bool → ℕ → Worker
worker_set_adapt ctx enable rwnd =
    if enable
    then record ctx { do_adapt = true; do_burst = false; data_rcvd = 0; tune_rwnd = rwnd % 2 ^ 16 }
    else record ctx { do_adapt = false }

unfoldable pub worker_init_tcp_sched : Worker → Bool → Worker
worker_init_tcp_sched ctx do_rwnd = record ctx { do_rwnd = do_rwnd; do_adapt = true; data_rcvd = 0 }

unfoldable pub worker_set_dedup : Worker → Bool → Worker
worker_set_dedup ctx enable = record ctx { do_dedup = enable }

-- `count` and `offset` are 16 bits wide, and WORKER_MAX_REORDER_COUNT is 1000.
unfoldable pub worker_set_reorder : Worker → Bool → ℕ → ℕ → Worker
worker_set_reorder ctx enable count offset =
    if enable
    then record ctx {
      do_reorder = true;
      reorder_count = pos (if ltb 1000 (count % 2 ^ 16) then 1000 else count % 2 ^ 16);
      reorder_offset = pos (offset % 2 ^ 16);
      reorder_ids = [];
    }
    else record ctx { do_reorder = false }

unfoldable pub worker_set_drop : Worker → Bool → ℤ → Worker
worker_set_drop ctx enable count =
    if enable
    then record ctx { do_drop = true; drop_count = count }
    else record ctx { do_drop = false }

-- What a worker sees: a packet, or a call that sets it.
pub data Input : Type 0 where
  packet : Packet → Input
  set_mark set_rwnd sol_update : ℕ → Input
  set_burst set_adapt : Bool → ℕ → Input
  init_tcp_sched set_dedup : Bool → Input
  set_reorder : Bool → ℕ → ℕ → Input
  set_drop : Bool → ℤ → Input

unfoldable pub step : Worker → Input → Worker × List Verdict
unfolding worker_set_mark worker_set_rwnd worker_sol_update worker_set_burst worker_set_adapt
    worker_init_tcp_sched worker_set_dedup worker_set_reorder worker_set_drop
step ctx (packet p) = worker_callback ctx p
step ctx (set_mark mark) = (worker_set_mark ctx mark, [])
step ctx (set_rwnd rwnd) = (worker_set_rwnd ctx rwnd, [])
step ctx (sol_update rwnd) = (worker_sol_update ctx rwnd, [])
step ctx (set_burst enable rwnd) = (worker_set_burst ctx enable rwnd, [])
step ctx (set_adapt enable rwnd) = (worker_set_adapt ctx enable rwnd, [])
step ctx (init_tcp_sched do_rwnd) = (worker_init_tcp_sched ctx do_rwnd, [])
step ctx (set_dedup enable) = (worker_set_dedup ctx enable, [])
step ctx (set_reorder enable count offset) = (worker_set_reorder ctx enable count offset, [])
step ctx (set_drop enable count) = (worker_set_drop ctx enable count, [])

-- Inputs one after the other, and the verdicts in order.
unfoldable pub run : Worker → List Input → Worker × List Verdict
unfolding step
run ctx [] = (ctx, [])
run ctx (i ∷ is) =
    let (ctx', out) = step ctx i in let (last, rest) = run ctx' is in (last, out ++ rest)
