-- ===== src/Transit/Earliest.antt =====
-- The rows of `calculate_transit`.
use mathlib.Core.List.{Memᴰ}
use mathlib.Core.List.Memᴰ
use mathlib.Core.Path.{subst}
use emulator_test.Prelude.{
  ◌≡◌, refl, sym, ap, inl, inr, List, [], ◌∷◌, map, Bool, true, false, keep, Result, ok, raised,
  index_error,
}
use emulator_test.Prelude.Int.{ℤ}
use emulator_test.Number.{Number}
use emulator_test.Transit.{TransitRow, with_transit, with_time, is_whole, calculate_transit}

module _ {ℓ κ} {A : Type ℓ} {B : Type κ} where
  pub Memᴰ-map : (f : A → B) {x : A} {xs : List A} → Memᴰ x xs → Memᴰ (f x) (map f xs)
  Memᴰ-map f (Memᴰ.head e) = Memᴰ.head (ap f e)
  Memᴰ-map f (Memᴰ.tail m) = Memᴰ.tail (Memᴰ-map f m)

  pub map-Memᴰ :
      (f : A → B) (xs : List A) {y : B} → Memᴰ y (map f xs) → (x : A) × Memᴰ x xs × (y ≡ f x)
  map-Memᴰ f [] m = absurd (Memᴰ.not-nil m)
  map-Memᴰ f (x ∷ xs) m = elim (Memᴰ.cases_cons m) [
    | inl e ↦ (x, Memᴰ.head refl, e)
    | inr later ↦ let (x', m', e) = map-Memᴰ f xs later in (x', Memᴰ.tail m', e)
  ]

module _ {ℓ} {A : Type ℓ} where
  keep-all_kept : (p : A → Bool) (xs : List A) → ((x : A) → p x ≡ true) → keep p xs ≡ xs
  keep-all_kept p [] h = refl
  keep-all_kept p (x ∷ xs) h = rw (h x) (ap (◌∷◌ x) (keep-all_kept p xs h))

module _ {ℓ} {F : Type ℓ} ⦃n : Number F⦄ where
  -- The smallest epoch of a sequence number.
  unfoldable pub IsEarliest : List (ℤ × F) → ℤ → F → Type ℓ
  IsEarliest rows seq epoch =
      Memᴰ (seq, epoch) rows × ((other : F) → Memᴰ (seq, other) rows → n.le epoch other ≡ true)

  -- What pandas says of `groupby("seq").min()` and of the inner `merge` on `seq`.
  unfoldable pub IsGroupMin : (List (ℤ × F) → List (ℤ × F)) → Type ℓ
  IsGroupMin earliest_of =
      (rows : List (ℤ × F))
      → ((seq : ℤ) (epoch : F) → Memᴰ (seq, epoch) (earliest_of rows) → IsEarliest rows seq epoch)
        × ((seq : ℤ) (epoch : F)
            → Memᴰ (seq, epoch) rows
            → (m : F) × Memᴰ (seq, m) (earliest_of rows))

  unfoldable pub IsInnerJoin : (List (ℤ × F) → List (ℤ × F) → List (ℤ × F × F)) → Type ℓ
  IsInnerJoin merge =
      (left right : List (ℤ × F)) (seq : ℤ) (a b : F)
      → (Memᴰ (seq, a, b) (merge left right) → Memᴰ (seq, a) left × Memᴰ (seq, b) right)
        × (Memᴰ (seq, a) left → Memᴰ (seq, b) right → Memᴰ (seq, a, b) (merge left right))

  -- Earliest on both sides, with the difference.
  pub IsTransit : List (ℤ × F) → List (ℤ × F) → TransitRow F → Type ℓ
  IsTransit server client row =
      IsEarliest server row.seq row.epoch_server
      × IsEarliest client row.seq row.epoch_client
      × (row.transit_time ≡ n.minus row.epoch_client row.epoch_server)

  module _ (earliest_of : List (ℤ × F) → List (ℤ × F))
      (merge : List (ℤ × F) → List (ℤ × F) → List (ℤ × F × F)) (is_na : F → Bool)
      (grouped : IsGroupMin earliest_of) (joined : IsInnerJoin merge)
      (no_na : (x : F) → is_na x ≡ false) where
    whole : (row : ℤ × F × F × F) → is_whole is_na row ≡ true
    unfolding is_whole
    whole (seq, server, client, transit) = rw (no_na server, no_na client, no_na transit) refl

    merged : List (ℤ × F) → List (ℤ × F) → List (ℤ × F × F)
    merged server client = merge (earliest_of server) (earliest_of client)

    in_both :
        (server client : List (ℤ × F)) (seq : ℤ) (s c : F)
        → Memᴰ (seq, s) server
        → Memᴰ (seq, c) client
        → (a : F) × (b : F) × Memᴰ (seq, a, b) (merged server client)
    unfolding merged IsGroupMin IsInnerJoin
    in_both server client seq s c ms mc =
        let (a, ma) = (grouped server).1 seq s ms in
        let (b, mb) = (grouped client).1 seq c mc in
        (a, b, (joined (earliest_of server) (earliest_of client) seq a b).1 ma mb)

    row-IsTransit :
        (server client : List (ℤ × F)) (first : F) (m : ℤ × F × F)
        → Memᴰ m (merged server client)
        → IsTransit server client (with_time first (with_transit m))
    unfolding merged IsGroupMin IsInnerJoin IsTransit with_time with_transit
    row-IsTransit server client first (seq, a, b) m =
        let (ma, mb) = (joined (earliest_of server) (earliest_of client) seq a b).0 m in
        ((grouped server).0 seq a ma, (grouped client).0 seq b mb, refl)

    rows_of : List (ℤ × F × F) → Result (List (TransitRow F))
    rows_of [] = raised index_error
    rows_of ((seq, server, first) ∷ ms) =
        ok (map (λ m. with_time first (with_transit m)) ((seq, server, first) ∷ ms))

    map-map :
        (first : F) (ms : List (ℤ × F × F))
        → map (with_time first) (map with_transit ms)
          ≡ map (λ m. with_time first (with_transit m)) ms
    map-map first [] = refl
    map-map first (m ∷ ms) = ap (◌∷◌ (with_time first (with_transit m))) (map-map first ms)

    timed_rows :
        (ms : List (ℤ × F × F))
        → ◌≡◌ {A = Result (List (TransitRow F))}
            (elim (map with_transit ms) [
              | [] ↦ raised index_error
              | (seq, server, first, transit) ∷ rows ↦
                  ok (map (with_time first) ((seq, server, first, transit) ∷ rows))
            ])
            (rows_of ms)
    unfolding rows_of with_transit
    timed_rows [] = refl
    timed_rows ((seq, server, first) ∷ ms) = ap ok (map-map first ((seq, server, first) ∷ ms))

    calculate_transit-rows_of :
        (server client : List (ℤ × F))
        → calculate_transit earliest_of merge is_na server client ≡ rows_of (merged server client)
    unfolding calculate_transit merged rows_of with_transit
    calculate_transit-rows_of server client =
        rw
          (
            keep-all_kept (is_whole is_na) (map with_transit (merged server client)) whole,
            calculate_transit,
          )
          (timed_rows (merged server client))

    Reported : (server client : List (ℤ × F)) → Result (List (TransitRow F)) → Type ℓ
    Reported server client result =
        (row : TransitRow F) × (rows : List (TransitRow F)) × (result ≡ ok (row ∷ rows))
        × ((r : TransitRow F) → Memᴰ r (row ∷ rows) → IsTransit server client r)
        × ((k : ℤ) (a b : F)
            → Memᴰ (k, a) server
            → Memᴰ (k, b) client
            → Memᴰ k (map (λ r. r.seq) (row ∷ rows)))

    rows_of-Reported :
        (server client : List (ℤ × F)) (ms : List (ℤ × F × F)) (x : ℤ × F × F)
        → Memᴰ x ms
        → ((first : F) (m : ℤ × F × F)
            → Memᴰ m ms
            → IsTransit server client (with_time first (with_transit m)))
        → ((k : ℤ) (a b : F)
            → Memᴰ (k, a) server
            → Memᴰ (k, b) client
            → (a' : F) × (b' : F) × Memᴰ (k, a', b') ms)
        → Reported server client (rows_of ms)
    unfolding rows_of Reported with_time with_transit
    rows_of-Reported server client [] x m right complete = absurd (Memᴰ.not-nil m)
    rows_of-Reported server client ((seq, server_epoch, first) ∷ ms) x m right complete =
        let row : ℤ × F × F → TransitRow F = λ y. with_time first (with_transit y) in
        let all = (seq, server_epoch, first) ∷ ms in
        (
          row (seq, server_epoch, first),
          map row ms,
          refl,
          (λ r mr.
              let (y, my, e) = map-Memᴰ row all mr in
              subst (IsTransit server client) (sym e) (right first y my)),
          λ k a b ma mb.
              let (a', b', my) = complete k a b ma mb in
              Memᴰ-map (λ (r : TransitRow F). r.seq) (Memᴰ-map row my),
        )

    -- Away from NaN, and where `groupby` and `merge` do what pandas says of them, `calculate_transit` of two
    -- lists of packets with a sequence number in common returns rows: each has the smallest epochs of its
    -- sequence number on both sides and their difference, and each sequence number of both sides has a
    -- row.
    pub calculate_transit_lem :
        (server client : List (ℤ × F)) (seq : ℤ) (s c : F)
        → Memᴰ (seq, s) server
        → Memᴰ (seq, c) client
        → (row : TransitRow F) × (rows : List (TransitRow F)) × (calculate_transit earliest_of merge
              is_na server client
            ≡ ok (row ∷ rows))
          × ((r : TransitRow F) → Memᴰ r (row ∷ rows) → IsTransit server client r)
          × ((k : ℤ) (a b : F)
              → Memᴰ (k, a) server
              → Memᴰ (k, b) client
              → Memᴰ k (map (λ r. r.seq) (row ∷ rows)))
    unfolding Reported
    calculate_transit_lem server client seq s c ms mc =
        let (a, b, m) = in_both server client seq s c ms mc in
        let all = merged server client in
        let reported =
          rows_of-Reported server client all (seq, a, b) m
            (λ first y my. row-IsTransit server client first y my)
            (λ k a b. in_both server client k a b) in
        subst (Reported server client) (sym (calculate_transit-rows_of server client)) reported
