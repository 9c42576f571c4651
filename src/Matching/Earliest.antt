-- ===== src/Matching/Earliest.antt =====
-- The dictionary of the first loop of `map_packets`.
use mathlib.Core.List.{Memᴰ}
use mathlib.Core.Path.{subst}
use emulator_test.Prelude.{
  ◌≡◌, refl, sym, ap, ◌∙◌, ◌≢◌, ◌⊎◌, inl, inr, List, [], ◌∷◌, All, false, Option, none, some,
  if◌then◌else◌, Bool-cases, Option-cases, arith,
}
use emulator_test.Prelude.Int.{ℤ, ltb_ℤ, eq_ℤ, ◌≤ℤ◌, eq_ℤ-refl, eq_ℤ→eq, eq_ℤ-ne}
use emulator_test.Matching.{Packet, Send, Senders, lookup, store, record_send, build, sender_dict}

lookup-store : (seq : ℤ) (v : Send) (d : Senders) → lookup seq (store seq v d) ≡ some v
unfolding lookup store
lookup-store seq v [] = rw (eq_ℤ-refl seq) refl
lookup-store seq v ((k, w) ∷ d) = elim (Bool-cases (eq_ℤ k seq)) [
  | inl e ↦ rw e (rw (e, lookup) refl)
  | inr e ↦ rw e (rw (e, lookup) (lookup-store seq v d))
]

lookup-store_other :
    (k seq : ℤ) (v : Send) (d : Senders)
    → eq_ℤ k seq ≡ false
    → lookup seq (store k v d) ≡ lookup seq d
unfolding lookup store
lookup-store_other k seq v [] h = rw h refl
lookup-store_other k seq v ((j, w) ∷ d) h = elim (Bool-cases (eq_ℤ j k)) [
  | inl e ↦
      let other : eq_ℤ j seq ≡ false = ap (λ i. eq_ℤ i seq) (eq_ℤ→eq j k e) ∙ h in
      rw e (rw (other, lookup) refl)
  | inr e ↦ elim (Bool-cases (eq_ℤ j seq)) [
    | inl same ↦ rw e (rw (same, lookup) refl)
    | inr other ↦ rw e (rw (other, lookup) (lookup-store_other k seq v d h))
  ]
]

-- What a send of the sequence number makes of its entry.
abbrev earlier : Option Send → Send → Option Send
earlier none p = some p
earlier (some first) p = if ltb_ℤ first.0 p.0 then some first else some p

record_send-same :
    (d : Senders) (t k a seq : ℤ)
    → k ≡ seq
    → lookup seq (record_send d (t, k, a)) ≡ earlier (lookup seq d) (t, a)
unfolding record_send
record_send-same d t k a seq same = rw (sym same) (elim (Option-cases (lookup k d)) [
  | inl e ↦ rw (e, record_send) (lookup-store k (t, a) d)
  | inr (first, e) ↦ elim (Bool-cases (ltb_ℤ first.0 t)) [
    | inl l ↦ rw (e, record_send) (rw l e)
    | inr l ↦ rw (e, record_send) (rw l (lookup-store k (t, a) d))
  ]
])

record_send-other :
    (d : Senders) (t k a seq : ℤ)
    → eq_ℤ k seq ≡ false
    → lookup seq (record_send d (t, k, a)) ≡ lookup seq d
unfolding record_send
record_send-other d t k a seq h = elim (Option-cases (lookup k d)) [
  | inl e ↦ rw (e, record_send) (lookup-store_other k seq (t, a) d h)
  | inr (first, e) ↦ elim (Bool-cases (ltb_ℤ first.0 t)) [
    | inl l ↦ rw (e, record_send) (rw l refl)
    | inr l ↦ rw (e, record_send) (rw l (lookup-store_other k seq (t, a) d h))
  ]
]

-- The entry after some packets, from that before them: the earliest of both.
abbrev Earliest : ℤ → Option Send → List Packet → Option Send → Type 0
Earliest seq o ps none = (o ≡ none) × All (λ p. p.1 ≢ seq) ps
Earliest seq o ps (some (st, ack)) =
    ((o ≡ some (st, ack)) ⊎ Memᴰ (st, seq, ack) ps)
    × ((s : Send) → o ≡ some s → st ≤ℤ s.0)
    × All (λ p. p.1 ≡ seq → st ≤ℤ p.0) ps

Earliest-other :
    (seq : ℤ) (o : Option Send) (p : Packet) (ps : List Packet) (f : Option Send)
    → p.1 ≢ seq
    → Earliest seq o ps f
    → Earliest seq o (p ∷ ps) f
Earliest-other seq o p ps none h (e, rest) = (e, (h, rest))
Earliest-other seq o p ps (some (st, ack)) h (from, before, rest) =
    (elim from [ inl e ↦ inl e | inr m ↦ inr (Memᴰ.tail m) ], before, ((λ e. absurd (h e)), rest))

le_of_some : (st : ℤ) (p r : Send) → st ≤ℤ p.0 → some p ≡ some r → st ≤ℤ r.0
le_of_some st p r h e = let same : p ≡ r = cc in subst (λ q. st ≤ℤ q.0) same h

Earliest-same :
    (seq : ℤ) (o : Option Send) (t k a : ℤ) (ps : List Packet) (f : Option Send)
    → k ≡ seq
    → Earliest seq (earlier o (t, a)) ps f
    → Earliest seq o ((t, k, a) ∷ ps) f
Earliest-same seq none t k a ps none h (e, rest) = cc
Earliest-same seq (some (s, b)) t k a ps none h (e, rest) = ground (arith, e)
Earliest-same seq none t k a ps (some (st, ack)) h (from, before, rest) = (
  elim from [ inl e ↦ inr (Memᴰ.head cc) | inr m ↦ inr (Memᴰ.tail m) ],
  (λ s e. cc),
  ((λ _. before (t, a) refl), rest),
)
Earliest-same seq (some (s, b)) t k a ps (some (st, ack)) h (from, before, rest) =
    elim (Bool-cases (ltb_ℤ s t)) [
      | inl l ↦
          let first : earlier (some (s, b)) (t, a) ≡ some (s, b) = rw l refl in
          let le : st ≤ℤ s = before (s, b) first in
          (
            elim from [ inl e ↦ inl (sym first ∙ e) | inr m ↦ inr (Memᴰ.tail m) ],
            (λ r e. before r (first ∙ e)),
            ((λ _. ground (arith, le, l)), rest),
          )
      | inr l ↦
          let later : earlier (some (s, b)) (t, a) ≡ some (t, a) = rw l refl in
          let le : st ≤ℤ t = before (t, a) later in
          let le_s : st ≤ℤ s = ground (arith, le, l) in
          (
            elim from [
              | inl e ↦
                  (let got : some (t, a) ≡ some (st, ack) = sym later ∙ e in inr (Memᴰ.head cc))
              | inr m ↦ inr (Memᴰ.tail m)
            ],
            (λ r e. le_of_some st (s, b) r le_s e),
            ((λ _. le), rest),
          )
    ]

Earliest-nil : (seq : ℤ) (o : Option Send) → Earliest seq o [] o
Earliest-nil seq none = (refl, tt)
Earliest-nil seq (some (s, b)) = (inl refl, (λ r e. le_of_some s (s, b) r (omega arith) e), tt)

Earliest-build :
    (seq : ℤ) (d : Senders) (ps : List Packet)
    → Earliest seq (lookup seq d) ps (lookup seq (build d ps))
unfolding build
Earliest-build seq d [] = Earliest-nil seq (lookup seq d)
Earliest-build seq d ((t, k, a) ∷ ps) =
    let rest = Earliest-build seq (record_send d (t, k, a)) ps in
    let f = lookup seq (build (record_send d (t, k, a)) ps) in
    elim (Bool-cases (eq_ℤ k seq)) [
      | inl e ↦
          let same = eq_ℤ→eq k seq e in
          Earliest-same seq (lookup seq d) t k a ps f same
            (subst (λ o. Earliest seq o ps f) (record_send-same d t k a seq same) rest)
      | inr e ↦
          Earliest-other seq (lookup seq d) (t, k, a) ps f (λ same. absurd (eq_ℤ-ne k seq e same))
            (subst (λ o. Earliest seq o ps f) (record_send-other d t k a seq e) rest)
    ]

-- No entry: never sent. An entry: a send that no other of the sequence number precedes.
abbrev pub FirstSend : ℤ → List Packet → Option Send → Type 0
FirstSend seq sender none = All (λ p. p.1 ≢ seq) sender
FirstSend seq sender (some (st, ack)) =
    Memᴰ (st, seq, ack) sender × All (λ p. p.1 ≡ seq → st ≤ℤ p.0) sender

Earliest-FirstSend :
    (seq : ℤ) (sender : List Packet) (f : Option Send)
    → Earliest seq none sender f
    → FirstSend seq sender f
Earliest-FirstSend seq sender none h = h.1
Earliest-FirstSend seq sender (some (st, ack)) (from, _, rest) =
    (elim from [ inl e ↦ cc | inr m ↦ m ], rest)

-- In the dictionary of the first loop, a sequence number without an entry was never sent, and an entry
-- is one of the sends of its sequence number, at a time that no other of them precedes.
pub sender_dict_lem :
    (sender : List Packet) (seq : ℤ) → FirstSend seq sender (lookup seq (sender_dict sender))
unfolding sender_dict lookup
sender_dict_lem sender seq =
    Earliest-FirstSend seq sender (lookup seq (build [] sender)) (Earliest-build seq [] sender)
