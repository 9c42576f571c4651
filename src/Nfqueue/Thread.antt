-- ===== src/Nfqueue/Thread.antt =====
-- What the thread of a new queue does before the queue is started, and behind that.
use emulator_test.Prelude.{
  ℕ, ◌≡◌, refl, ap, ◌∙◌, List, [], ◌∷◌, ◌++◌, map, Bool, true, false, Option, none, some,
  if◌then◌else◌, arith, ◌==◌, Bool-cases, inl, inr,
}
use emulator_test.Nfqueue.{
  Netfilter, Queue, nfq_stopped, nfq_running, nfq_dead, nfq_init, nfq_start, nfq_run,
}

module _ {ℓ} {A : Type ℓ} where
  -- Rounds in which the queue has one status.
  abbrev pub rounds_at : Queue → List (Option A) → List (ℕ × Option A)
  rounds_at q received = map (λ r. (q.status, r)) received

  pub received_of : List (Option A) → List A
  received_of [] = []
  received_of (none ∷ rs) = received_of rs
  received_of (some a ∷ rs) = a ∷ received_of rs

  abbrev after : List A → List A × Bool → List A × Bool
  after out (out', ended) = (out ++ out', ended)

  run-stopped :
      (status : ℕ) (rs : List (Option A)) (rest : List (ℕ × Option A))
      → (status == nfq_stopped) ≡ true
      → nfq_run (map (λ r. (status, r)) rs ++ rest) ≡ nfq_run rest
  unfolding nfq_run
  run-stopped status [] rest h = refl
  run-stopped status (r ∷ rs) rest h = rw h (run-stopped status rs rest h)

  run-dead :
      (status : ℕ) (r : Option A) (rest : List (ℕ × Option A))
      → (status == nfq_stopped) ≡ false
      → (status == nfq_dead) ≡ true
      → nfq_run ((status, r) ∷ rest) ≡ ([], true)
  unfolding nfq_run
  run-dead status r rest s d = rw (s, d) refl

  run-receiving :
      (status : ℕ) (rs : List (Option A)) (rest : List (ℕ × Option A))
      → (status == nfq_stopped) ≡ false
      → (status == nfq_dead) ≡ false
      → nfq_run (map (λ r. (status, r)) rs ++ rest) ≡ after (received_of rs) (nfq_run rest)
  unfolding nfq_run received_of
  run-receiving status [] rest s d = refl
  run-receiving status (none ∷ rs) rest s d = rw (s, d) (run-receiving status rs rest s d)
  run-receiving status (some a ∷ rs) rest s d =
      rw (s, d) (ap (after (a ∷ [])) (run-receiving status rs rest s d))

  started :
      (behind : List (Option A))
      → nfq_run (map (λ r. (nfq_running, r)) behind) ≡ (received_of behind, false)
  unfolding nfq_run received_of
  started [] = refl
  started (none ∷ rs) = started rs
  started (some a ∷ rs) = ap (after (a ∷ [])) (started rs)

  by_status :
      (status : ℕ) (early : Option A) (before behind : List (Option A))
      → nfq_run (map (λ r. (status, r)) (early ∷ before) ++ map (λ r. (nfq_running, r)) behind) ≡ (
          if status == nfq_stopped
          then (received_of behind, false)
          else if status == nfq_dead
          then ([], true)
          else (received_of (early ∷ before) ++ received_of behind, false))
  by_status status early before behind = elim (Bool-cases (status == nfq_stopped)) [
    | inl stopped ↦ run-stopped status (early ∷ before) _ stopped ∙ started behind ∙ rw stopped refl
    | inr other ↦ elim (Bool-cases (status == nfq_dead)) [
      | inl dead ↦ run-dead status early _ other dead ∙ rw (other, dead) refl
      | inr alive ↦
          run-receiving status (early ∷ before) _ other alive
          ∙ ap (after (received_of (early ∷ before))) (started behind)
          ∙ rw (other, alive) refl
    ]
  ]

init-status :
    (net : Netfilter) (k : ℕ) (q : Queue) → nfq_init net k ≡ some q → q.status ≡ net.memory_status k
unfolding nfq_init
init-status net k q made = ground arith

-- The thread of a queue that has just been initialised goes by what the memory of its status held, until the
-- queue is started. If that is 0, it hands on what it receives from the start on, and nothing before; if
-- it is 2, the thread ends in its first round and hands on nothing even behind the start; if it is any
-- other number, it hands on what it receives before the start, too.
pub nfq_run-nfq_init {ℓ} :
    {A : Type ℓ} (net : Netfilter) (k : ℕ) (q : Queue) (early : Option A)
    (before behind : List (Option A))
    → nfq_init net k ≡ some q
    → nfq_run (rounds_at q (early ∷ before) ++ rounds_at (nfq_start q) behind) ≡ (
        if net.memory_status k == nfq_stopped
        then (received_of behind, false)
        else if net.memory_status k == nfq_dead
        then ([], true)
        else (received_of (early ∷ before) ++ received_of behind, false))
unfolding nfq_start
nfq_run-nfq_init net k q early before behind made =
    let found = init-status net k q made in rw (← found) (by_status q.status early before behind)
