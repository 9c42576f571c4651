-- ===== src/Matching/Rows.antt =====
-- The second loop of `map_packets` and its rows.
use mathlib.Core.List.{Memᴰ}
use mathlib.Core.List.Memᴰ
use mathlib.Core.Path.{subst}
use emulator_test.Prelude.{
  ◌≡◌, refl, sym, ap, ◌∙◌, ◌≢◌, ◌⊎◌, inl, inr, List, [], ◌∷◌, All, All-map, true, false, some,
  Bool-cases, Option-cases, arith,
}
use emulator_test.Prelude.Int.{ℤ, eq_ℤ, eq_ℤ→eq, eq_ℤ-ne}
use emulator_test.Matching.{
  Packet, Senders, Line, header, matched, lookup, member, match_rows, sender_dict, map_packets,
}
use emulator_test.Matching.Earliest.{FirstSend, sender_dict_lem}

-- The sequence numbers of the rows.
abbrev pub row_seqs : List Line → List ℤ
row_seqs [] = []
row_seqs (header ∷ rows) = row_seqs rows
row_seqs (matched seq ack st rt ∷ rows) = seq ∷ row_seqs rows

abbrev pub Distinct : List ℤ → Type 0
Distinct [] = Unit
Distinct (k ∷ ks) = All (λ j. j ≢ k) ks × Distinct ks

member-Memᴰ : (seq : ℤ) (seen : List ℤ) → member seq seen ≡ true → Memᴰ seq seen
unfolding member
member-Memᴰ seq [] h = cc
member-Memᴰ seq (k ∷ seen) h = elim (Bool-cases (eq_ℤ k seq)) [
  | inl e ↦ Memᴰ.head (sym (eq_ℤ→eq k seq e))
  | inr e ↦ Memᴰ.tail (member-Memᴰ seq seen (rw e at h))
]

-- A row of the dictionary's entry and of a received packet.
abbrev pub IsMatch : Senders → List Packet → Line → Type 0
IsMatch d receiver header = ⊥
IsMatch d receiver (matched seq ack st rt) =
    (lookup seq d ≡ some (st, ack)) × Memᴰ (rt, seq, ack) receiver

-- One round: a row, or a reason for none.
abbrev Round : Senders → List ℤ → ℤ → ℤ → ℤ → List Packet → Type 0
Round d seen rt seq ack ps =
    ((match_rows d seen ((rt, seq, ack) ∷ ps) ≡ match_rows d seen ps)
      × ((st : ℤ) → lookup seq d ≡ some (st, ack) → member seq seen ≡ true))
    ⊎ ((st : ℤ) × (lookup seq d ≡ some (st, ack))
        × (member seq seen ≡ false)
        × (match_rows d seen ((rt, seq, ack) ∷ ps)
            ≡ matched seq ack st rt ∷ match_rows d (seq ∷ seen) ps))

round :
    (d : Senders) (seen : List ℤ) (rt seq ack : ℤ) (ps : List Packet) → Round d seen rt seq ack ps
unfolding match_rows
round d seen rt seq ack ps = elim (Option-cases (lookup seq d)) [
  | inl none_there ↦ inl (rw (none_there, match_rows) refl, λ st e. absurd cc)
  | inr ((st, sender_ack), e) ↦ elim (Bool-cases (eq_ℤ ack sender_ack)) [
    | inr unmatched ↦ inl (
      rw (e, match_rows) (rw unmatched refl),
      λ st' e'. absurd (eq_ℤ-ne ack sender_ack unmatched cc),
    )
    | inl same ↦ elim (Bool-cases (member seq seen)) [
      | inl old ↦ inl (rw (e, match_rows) (rw same (rw old refl)), λ st' e'. old)
      | inr new ↦
          let acks : ack ≡ sender_ack = eq_ℤ→eq ack sender_ack same in
          inr (
            st,
            e ∙ ap (λ a. some (st, a)) (sym acks),
            new,
            rw (e, match_rows) (rw same (rw new refl)),
          )
    ]
  ]
]

rows-IsMatch :
    (d : Senders) (receiver : List Packet) (seen : List ℤ) (ps : List Packet)
    → ((p : Packet) → Memᴰ p ps → Memᴰ p receiver)
    → All (IsMatch d receiver) (match_rows d seen ps)
unfolding match_rows
rows-IsMatch d receiver seen [] h = tt
rows-IsMatch d receiver seen ((rt, seq, ack) ∷ ps) h = elim (round d seen rt seq ack ps) [
  | inl (e, _) ↦
      subst (All (IsMatch d receiver)) (sym e)
        (rows-IsMatch d receiver seen ps (λ p m. h p (Memᴰ.tail m)))
  | inr (st, found, _, e) ↦ subst (All (IsMatch d receiver)) (sym e) (
    (found, h (rt, seq, ack) (Memᴰ.head refl)),
    rows-IsMatch d receiver (seq ∷ seen) ps (λ p m. h p (Memᴰ.tail m)),
  )
]

-- The sequence numbers of the rows are new and differ.
abbrev Fresh : List ℤ → List Line → Type 0
Fresh seen rows = All (λ k. member k seen ≡ false) (row_seqs rows) × Distinct (row_seqs rows)

unseen_cons :
    (seq k : ℤ) (seen : List ℤ)
    → member k (seq ∷ seen) ≡ false
    → (member k seen ≡ false) × (k ≢ seq)
unfolding member
unseen_cons seq k seen h = elim (Bool-cases (eq_ℤ seq k)) [
  | inl e ↦ absurd (ground (arith, h, e))
  | inr e ↦ (ground (arith, h, e), λ same. eq_ℤ-ne seq k e (sym same))
]

rows-Fresh : (d : Senders) (seen : List ℤ) (ps : List Packet) → Fresh seen (match_rows d seen ps)
unfolding match_rows
rows-Fresh d seen [] = (tt, tt)
rows-Fresh d seen ((rt, seq, ack) ∷ ps) = elim (round d seen rt seq ack ps) [
  | inl (e, _) ↦ subst (Fresh seen) (sym e) (rows-Fresh d seen ps)
  | inr (st, _, new, e) ↦
      let (unseen, distinct) = rows-Fresh d (seq ∷ seen) ps in
      let rows = row_seqs (match_rows d (seq ∷ seen) ps) in
      subst (Fresh seen) (sym e) (
        (
          new,
          All-map (λ k. member k (seq ∷ seen) ≡ false) (λ k. member k seen ≡ false)
              (λ k h. (unseen_cons seq k seen h).0) rows unseen,
        ),
        (
          All-map (λ k. member k (seq ∷ seen) ≡ false) (λ k. k ≢ seq)
              (λ k h. (unseen_cons seq k seen h).1) rows unseen,
          distinct,
        ),
      )
]

rows_all :
    (d : Senders) (seen : List ℤ) (ps : List Packet) (rt seq ack st : ℤ)
    → Memᴰ (rt, seq, ack) ps
    → lookup seq d ≡ some (st, ack)
    → Memᴰ seq (row_seqs (match_rows d seen ps)) ⊎ Memᴰ seq seen
unfolding match_rows
rows_all d seen [] rt seq ack st m h = absurd (Memᴰ.not-nil m)
rows_all d seen ((t, k, a) ∷ ps) rt seq ack st m h = elim (round d seen t k a ps) [
  | inl (e, reason) ↦ elim (Memᴰ.cases_cons m) [
    | inl same ↦
        let seqs : seq ≡ k = ap (λ p. p.1) same in
        let acks : ack ≡ a = ap (λ p. p.2) same in
        let found : lookup k d ≡ some (st, a) =
          sym (ap (λ j. lookup j d) seqs) ∙ h ∙ ap (λ b. some (st, b)) acks in
        inr (member-Memᴰ seq seen (ap (λ j. member j seen) seqs ∙ reason st found))
    | inr later ↦
        subst (λ rows. Memᴰ seq (row_seqs rows) ⊎ Memᴰ seq seen) (sym e)
          (rows_all d seen ps rt seq ack st later h)
  ]
  | inr (s, _, _, e) ↦
      subst (λ rows. Memᴰ seq (row_seqs rows) ⊎ Memᴰ seq seen) (sym e)
        (elim (Memᴰ.cases_cons m) [
          | inl same ↦ inl (Memᴰ.head (ap (λ p. p.1) same))
          | inr later ↦ elim (rows_all d (k ∷ seen) ps rt seq ack st later h) [
            | inl below ↦ inl (Memᴰ.tail below)
            | inr before ↦ elim (Memᴰ.cases_cons before) [
              | inl same ↦ inl (Memᴰ.head same)
              | inr old ↦ inr old
            ]
          ]
        ])
]

-- A row of a received packet and the first send of its sequence number, with one acknowledgement number.
abbrev pub IsRow : List Packet → List Packet → Line → Type 0
IsRow sender receiver header = ⊥
IsRow sender receiver (matched seq ack st rt) =
    FirstSend seq sender (some (st, ack)) × Memᴰ (rt, seq, ack) receiver

IsMatch-IsRow :
    (sender receiver : List Packet) (row : Line)
    → IsMatch (sender_dict sender) receiver row
    → IsRow sender receiver row
IsMatch-IsRow sender receiver header h = h
IsMatch-IsRow sender receiver (matched seq ack st rt) (found, received) =
    (subst (FirstSend seq sender) found (sender_dict_lem sender seq), received)

-- `map_packets` returns the head line and rows. A row pairs a received packet with a send of the same
-- sequence and acknowledgement number that no send of that sequence number precedes; no sequence
-- number has two rows; and each received packet whose numbers are those of an entry of the
-- dictionary has a row for its sequence number.
pub map_packets_lem :
    (sender receiver : List Packet)
    → (rows : List Line) × (map_packets sender receiver ≡ header ∷ rows)
      × All (IsRow sender receiver) rows
      × Distinct (row_seqs rows)
      × ((rt seq ack st : ℤ)
          → Memᴰ (rt, seq, ack) receiver
          → lookup seq (sender_dict sender) ≡ some (st, ack)
          → Memᴰ seq (row_seqs rows))
unfolding map_packets
map_packets_lem sender receiver =
    let d = sender_dict sender in
    let rows = match_rows d [] receiver in
    (
      rows,
      refl,
      All-map (IsMatch d receiver) (IsRow sender receiver) (IsMatch-IsRow sender receiver) rows
          (rows-IsMatch d receiver [] receiver (λ p m. m)),
      (rows-Fresh d [] receiver).1,
      λ rt seq ack st received found. elim (rows_all d [] receiver rt seq ack st received found) [
        | inl m ↦ m
        | inr m ↦ absurd (Memᴰ.not-nil m)
      ],
    )
