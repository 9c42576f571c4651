-- ===== src/Nfqueue.antt =====
-- A queue's state and its thread, src/nfqueue.c. What libnetfilter_queue and pthread answer for each queue
-- is a parameter, with what the memory of a new `nfq_ctx` holds; its logs are left out.
pub mod Thread
mod Tests
use emulator_test.Prelude.{
  ℕ, suc, ◌*◌, List, [], ◌∷◌, Bool, true, false, not, ◌||◌, ltb, ◌==◌, Option, none, some,
  if◌then◌else◌,
}

-- The answers of the libraries, by the number of the queue: true where a call succeeds.
pub record Netfilter : Type 0 where
  pub opens : ℕ → Bool
  pub rcvbufsiz : ℕ → ℕ
  pub creates : ℕ → Bool
  pub sets_mode : ℕ → Bool
  pub sets_maxlen : ℕ → Bool
  pub starts_thread : ℕ → Bool
  pub destroys : ℕ → Bool
  pub closes : ℕ → Bool
  pub memory_status : ℕ → ℕ

-- `nfq_ctx`, less the library's handles
pub record Queue : Type 0 where
  pub queue_num : ℕ
  pub status : ℕ

-- `enum nfq_status`
abbrev pub nfq_stopped : ℕ
nfq_stopped = 0

abbrev pub nfq_running : ℕ
nfq_running = 1

abbrev pub nfq_dead : ℕ
nfq_dead = 2

-- NFQ_QUEUE_SIZE packets of NFQ_PKT_SIZE bytes; nothing where it returns -1. The status of the new queue
-- is what the memory held.
unfoldable pub nfq_init : Netfilter → ℕ → Option Queue
nfq_init net k =
    if not (net.opens k)
      || ltb (net.rcvbufsiz k) (4096 * 1600)
      || not (net.creates k)
      || not (net.sets_mode k)
      || not (net.sets_maxlen k)
      || not (net.starts_thread k)
    then none
    else some (record { queue_num = k; status = net.memory_status k })

unfoldable pub nfq_start : Queue → Queue
nfq_start q = record q { status = nfq_running }

unfoldable pub nfq_stop : Queue → Queue
nfq_stop q = record q { status = nfq_stopped }

-- The queue, and whether -1 is returned.
unfoldable pub nfq_teardown : Netfilter → Queue → Queue × Bool
nfq_teardown net q =
    (record q { status = nfq_dead }, not (net.destroys q.queue_num) || not (net.closes q.queue_num))

-- The rounds of `nfq_run`: the status that is loaded, and what `recv` gives if it is called, nothing on an
-- error. A status that is none of the three goes on to `recv`. The result is what is handed to
-- `nfq_handle_packet`, and whether the thread has ended.
module _ {ℓ} {A : Type ℓ} where
  pub nfq_run : List (ℕ × Option A) → List A × Bool
  nfq_run [] = ([], false)
  nfq_run ((status, received) ∷ rounds) =
      let rest = nfq_run rounds in
      if status == nfq_stopped
      then rest
      else if status == nfq_dead
      then ([], true)
      else elim received [ none ↦ rest | some message ↦ (message ∷ rest.0, rest.1) ]
