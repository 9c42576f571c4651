-- ===== src/Series/Range.antt =====
-- What the readers of a run's series return.
use emulator_test.Prelude.{
  ◌≡◌, ◌≢◌, refl, ap, ◌⊎◌, inl, inr, List, [], ◌∷◌, map, keep, All, length, suc, ◌&&◌, Bool, true,
  false, Bool-cases, Option, none, some, Result, ok, raised, key_error,
}
use emulator_test.Number.{Number}
use emulator_test.Text.{codes, text_eq}
use emulator_test.Text.Fields.{text_eq_refl}
use emulator_test.Series.{
  Stream, Sample, IperfLog, SeriesRow, udp, sender, receiver, udp_row, stream_row, receiver_row,
  row_loop, read_iperf, seconds, set_seconds, reset, set_df_range,
}

module _ {ℓ} {F : Type ℓ} ⦃n : Number F⦄ where
  -- The rows strictly inside a range.
  abbrev pub inside : F → F → List (SeriesRow F) → List (SeriesRow F)
  inside begin finish = keep (λ r. n.lt begin (seconds r) && n.lt (seconds r) finish)

  keep_twice :
      (begin finish : F) (df : List (SeriesRow F))
      → keep (λ r. n.lt (seconds r) finish) (keep (λ r. n.lt begin (seconds r)) df)
        ≡ inside begin finish df
  keep_twice begin finish [] = refl
  keep_twice begin finish (r ∷ df) = elim (Bool-cases (n.lt begin (seconds r))) [
    | inr e ↦ rw e (keep_twice begin finish df)
    | inl e ↦ elim (Bool-cases (n.lt (seconds r) finish)) [
      | inl e' ↦ rw e (rw (e', keep) (ap (λ q. r ∷ q) (keep_twice begin finish df)))
      | inr e' ↦ rw e (rw (e', keep) (keep_twice begin finish df))
    ]
  ]

  seconds-set_seconds : (t : F) (r : SeriesRow F) → seconds (set_seconds t r) ≡ t
  unfolding seconds set_seconds
  seconds-set_seconds t (udp s x j l) = refl
  seconds-set_seconds t (sender s x c r) = refl
  seconds-set_seconds t (receiver s x) = refl

  -- No row: an error. Else the column starts at the first row's time.
  abbrev pub FromFirst : List (SeriesRow F) → Result (List (SeriesRow F)) → Type ℓ
  FromFirst [] r = r ≡ raised key_error
  FromFirst (first ∷ rest) r =
      (rows : List (SeriesRow F)) × (r ≡ ok rows)
      × (map seconds rows ≡ map (λ t. n.minus t (seconds first)) (map seconds (first ∷ rest)))

  seconds_shift :
      (t : F) (df : List (SeriesRow F))
      → map seconds (map (λ s. set_seconds (n.minus (seconds s) t) s) df)
        ≡ map (λ s. n.minus s t) (map seconds df)
  seconds_shift t [] = refl
  seconds_shift t (r ∷ df) =
      rw (seconds-set_seconds (n.minus (seconds r) t) r)
        (ap (λ q. n.minus (seconds r) t ∷ q) (seconds_shift t df))

  reset-FromFirst : (df : List (SeriesRow F)) → FromFirst df (reset df)
  unfolding reset
  reset-FromFirst [] = refl
  reset-FromFirst (r ∷ df) = (
    map (λ s. set_seconds (n.minus (seconds s) (seconds r)) s) (r ∷ df),
    refl,
    seconds_shift (seconds r) (r ∷ df),
  )

  -- `set_df_range` keeps the rows strictly inside the range, in order; with `reset_ts` it raises KeyError
  -- when there is none, and else takes the first kept time from every time.
  pub set_df_range_lem :
      (df : List (SeriesRow F)) (begin finish : F)
      → (set_df_range df (begin, finish) false ≡ ok (inside begin finish df))
        × FromFirst (inside begin finish df) (set_df_range df (begin, finish) true)
  unfolding set_df_range
  set_df_range_lem df begin finish =
      rw (keep_twice begin finish df) (refl, reset-FromFirst (inside begin finish df))

text_eq_udp : text_eq (codes "UDP") (codes "UDP") ≡ true
text_eq_udp = text_eq_refl (codes "UDP")

tcp_tcp : text_eq (codes "TCP") (codes "TCP") ≡ true
tcp_tcp = text_eq_refl (codes "TCP")

tcp_not_udp : text_eq (codes "TCP") (codes "UDP") ≡ false
unfolding text_eq
tcp_not_udp = refl

module _ {ℓ} {F : Type ℓ} (round1 round0 : F → F) where
  abbrev pub HasUdpKeys : Sample F → Type ℓ
  HasUdpKeys i = (i.sum.jitter_ms ≢ none) × (i.sum.lost_percent ≢ none)

  abbrev pub HasSender : List (Stream F) → Type ℓ
  HasSender streams =
      (s : Stream F) × (rest : List (Stream F)) × (streams ≡ s ∷ rest)
      × (s.snd_cwnd ≢ none)
      × (s.rtt ≢ none)

  -- A log with the keys that its kind of row needs.
  abbrev pub Readable : IperfLog F → Bool → Type ℓ
  Readable log is_sender =
      ((log.protocol ≡ codes "UDP") × All HasUdpKeys log.intervals)
      ⊎ ((log.protocol ≡ codes "TCP")
          × ((is_sender ≡ true) × All (λ i. HasSender i.streams) log.intervals
              ⊎ (is_sender ≡ false)))

  row_loop-ok :
      (make : Sample F → Result (SeriesRow F)) (P : Sample F → Type ℓ)
      → ((i : Sample F) → P i → (row : SeriesRow F) × (make i ≡ ok row))
      → (is : List (Sample F)) → All P is
      → (rows : List (SeriesRow F)) × (row_loop round1 round0 make is ≡ ok rows)
        × (length rows ≡ length is)
  unfolding row_loop
  row_loop-ok make P f [] _ = ([], refl, refl)
  row_loop-ok make P f (i ∷ is) (h, hs) =
      let (row, e) = f i h in
      let (rows, es, size) = row_loop-ok make P f is hs in
      (row ∷ rows, rw e (rw es refl), ap suc size)

  some_of : (o : Option F) → o ≢ none → (x : F) × (o ≡ some x)
  some_of none h = absurd (h refl)
  some_of (some x) h = (x, refl)

  udp_row-ok :
      (i : Sample F) → HasUdpKeys i → (row : SeriesRow F) × (udp_row round1 round0 i ≡ ok row)
  unfolding udp_row
  udp_row-ok i (hj, hl) =
      let (jitter, ej) = some_of i.sum.jitter_ms hj in
      let (loss, el) = some_of i.sum.lost_percent hl in
      (
        udp (round1 i.sum.start) (round0 i.sum.bits_per_second) (round1 jitter) loss,
        rw ej (rw el refl),
      )

  stream_row-ok :
      (streams : List (Stream F))
      → HasSender streams
      → (row : SeriesRow F) × (stream_row round1 round0 streams ≡ ok row)
  unfolding stream_row
  stream_row-ok streams (s, rest, first, hc, hr) =
      let (snd_cwnd, ec) = some_of s.snd_cwnd hc in
      let (rtt, er) = some_of s.rtt hr in
      (
        sender (round1 s.start) (round0 s.bits_per_second) snd_cwnd rtt,
        rw first (rw ec (rw er refl)),
      )

  receiver_ok :
      (i : Sample F)
      → receiver_row round1 round0 i
        ≡ ok (receiver (round1 i.sum.start) (round0 i.sum.bits_per_second))
  unfolding receiver_row
  receiver_ok i = refl

  every_sample : (is : List (Sample F)) → All (λ i. i ≡ i) is
  every_sample [] = tt
  every_sample (i ∷ is) = (refl, every_sample is)

  -- `read_iperf` returns the start time and one row for each interval of a UDP log in which each interval
  -- has its jitter and its loss, of a TCP sender's log in which the first stream of each interval has
  -- its window and its round-trip time, and of a TCP receiver's log.
  pub read_iperf_lem :
      (log : IperfLog F) (is_sender : Bool)
      → Readable log is_sender
      → (df : List (SeriesRow F)) × (read_iperf round1 round0 log is_sender ≡ ok (df, log.timesecs))
        × (length df ≡ length log.intervals)
  unfolding read_iperf
  read_iperf_lem log is_sender (inl (kind, keys)) =
      let (df, e, size) =
        row_loop-ok (udp_row round1 round0) HasUdpKeys udp_row-ok log.intervals keys in
      (df, rw kind (rw text_eq_udp (rw e refl)), size)
  read_iperf_lem log is_sender (inr (kind, inl (side, keys))) =
      let (df, e, size) =
        row_loop-ok (λ i. stream_row round1 round0 i.streams) (λ i. HasSender i.streams)
          (λ i h. stream_row-ok i.streams h) log.intervals keys in
      (df, rw kind (rw tcp_not_udp (rw tcp_tcp (rw side (rw e refl)))), size)
  read_iperf_lem log is_sender (inr (kind, inr side)) =
      let (df, e, size) =
        row_loop-ok (receiver_row round1 round0) (λ i. i ≡ i)
          (λ i _. (receiver (round1 i.sum.start) (round0 i.sum.bits_per_second), receiver_ok i))
          log.intervals (every_sample log.intervals) in
      (df, rw kind (rw tcp_not_udp (rw tcp_tcp (rw side (rw e refl)))), size)
