-- ===== src/Nfqueue/Tests.antt =====
-- A queue on memory that held 7 in the place of its status.
use emulator_test.Prelude.{
  ℕ, ◌≡◌, refl, [], ◌∷◌, ◌++◌, none, some, true, false, if◌then◌else◌, ◌==◌,
}
use emulator_test.Nfqueue.{Netfilter, Queue, nfq_stopped, nfq_dead, nfq_init, nfq_start, nfq_run}
use emulator_test.Nfqueue.Thread.{rounds_at, received_of, nfq_run-nfq_init}

abbrev net : Netfilter
net = record {
  opens = λ k. true;
  rcvbufsiz = λ k. 6553600;
  creates = λ k. true;
  sets_mode = λ k. true;
  sets_maxlen = λ k. true;
  starts_thread = λ k. true;
  destroys = λ k. true;
  closes = λ k. true;
  memory_status = λ k. 7;
}

abbrev queue : Queue
queue = record { queue_num = 0; status = 7 }

queue_made : nfq_init net 0 ≡ some queue
unfolding nfq_init
queue_made = refl

nfq_run-nfq_init_example :
    nfq_run {A = ℕ} (
      rounds_at queue (some 11 ∷ none ∷ some 12 ∷ []) ++ rounds_at (nfq_start queue) (some 13 ∷ []))
    ≡ (if net.memory_status 0 == nfq_stopped
        then (received_of (some 13 ∷ []), false)
        else if net.memory_status 0 == nfq_dead
        then ([], true)
        else (received_of (some 11 ∷ none ∷ some 12 ∷ []) ++ received_of (some 13 ∷ []), false))
nfq_run-nfq_init_example =
    nfq_run-nfq_init net 0 queue (some 11) (none ∷ some 12 ∷ []) (some 13 ∷ []) queue_made
