-- ===== src/Series.antt =====
-- `read_iperf` and `set_df_range` of scripts/processing/util.py. The log is taken as `json.load` gives
-- it, with nothing for a key that is missing; `round` to one digit and to none are arguments.
pub mod Range
mod Tests
use emulator_test.Prelude.{
  List, [], ◌∷◌, map, ◌&&◌, Bool, true, false, keep, Option, none, some, if◌then◌else◌, Result, ok,
  raised, index_error, key_error, name_error, or_raise, ◌>>=◌,
}
use emulator_test.Number.{Number}
use emulator_test.Text.{Text, codes, text_eq}

-- `interval["sum"]` and `interval["streams"]`.
pub record Sum {ℓ} (F : Type ℓ) : Type ℓ where
  pub start : F
  pub bits_per_second : F
  pub jitter_ms : Option F
  pub lost_percent : Option F

pub record Stream {ℓ} (F : Type ℓ) : Type ℓ where
  pub start : F
  pub bits_per_second : F
  pub snd_cwnd : Option F
  pub rtt : Option F

pub record Sample {ℓ} (F : Type ℓ) : Type ℓ where
  pub sum : Sum F
  pub streams : List (Stream F)

pub record IperfLog {ℓ} (F : Type ℓ) : Type ℓ where
  pub timesecs : F
  pub protocol : Text
  pub intervals : List (Sample F)

-- A row of the data frame, with the columns of its kind.
pub data SeriesRow {ℓ} (F : Type ℓ) : Type ℓ where
  udp : (seconds throughput jitter loss_rate : F) → SeriesRow F
  sender : (seconds throughput snd_cwnd rtt : F) → SeriesRow F
  receiver : (seconds throughput : F) → SeriesRow F

module _ {ℓ} {F : Type ℓ} (round1 round0 : F → F) where
  udp_row : Sample F → Result (SeriesRow F)
  udp_row i = do
    jitter ← or_raise i.sum.jitter_ms key_error
    loss ← or_raise i.sum.lost_percent key_error
    ok (udp (round1 i.sum.start) (round0 i.sum.bits_per_second) (round1 jitter) loss)

  stream_row : List (Stream F) → Result (SeriesRow F)
  stream_row [] = raised index_error
  stream_row (sample ∷ streams) = do
    snd_cwnd ← or_raise sample.snd_cwnd key_error
    rtt ← or_raise sample.rtt key_error
    ok (sender (round1 sample.start) (round0 sample.bits_per_second) snd_cwnd rtt)

  receiver_row : Sample F → Result (SeriesRow F)
  receiver_row i = ok (receiver (round1 i.sum.start) (round0 i.sum.bits_per_second))

  -- A loop over the intervals.
  row_loop : (Sample F → Result (SeriesRow F)) → List (Sample F) → Result (List (SeriesRow F))
  row_loop make [] = ok []
  row_loop make (i ∷ is) = do row ← make i; rows ← row_loop make is; ok (row ∷ rows)

  -- The rows and `start_time`; with another protocol the data frame is not bound.
  unfoldable pub read_iperf : IperfLog F → Bool → Result (List (SeriesRow F) × F)
  unfolding udp_row stream_row receiver_row row_loop
  read_iperf log is_sender =
      let rows =
        if text_eq log.protocol (codes "UDP")
        then row_loop udp_row log.intervals
        else if text_eq log.protocol (codes "TCP")
        then (if is_sender
            then row_loop (λ i. stream_row i.streams) log.intervals
            else row_loop receiver_row log.intervals)
        else raised name_error in
      do df ← rows; ok (df, log.timesecs)

-- The column `seconds`, which each kind of row has.
unfoldable pub seconds {ℓ} : {F : Type ℓ} → SeriesRow F → F
seconds (udp s throughput jitter loss_rate) = s
seconds (sender s throughput snd_cwnd rtt) = s
seconds (receiver s throughput) = s

set_seconds {ℓ} : {F : Type ℓ} → F → SeriesRow F → SeriesRow F
set_seconds t (udp s throughput jitter loss_rate) = udp t throughput jitter loss_rate
set_seconds t (sender s throughput snd_cwnd rtt) = sender t throughput snd_cwnd rtt
set_seconds t (receiver s throughput) = receiver t throughput

module _ {ℓ} {F : Type ℓ} ⦃n : Number F⦄ where
  -- `d["seconds"] -= d.loc[0, "seconds"]`, which wants a row.
  reset : List (SeriesRow F) → Result (List (SeriesRow F))
  unfolding seconds set_seconds
  reset [] = raised key_error
  reset (r ∷ rs) = ok (map (λ s. set_seconds (n.minus (seconds s) (seconds r)) s) (r ∷ rs))

  unfoldable pub set_df_range : List (SeriesRow F) → F × F → Bool → Result (List (SeriesRow F))
  unfolding seconds reset
  set_df_range df (begin, finish) reset_ts =
      let above = keep (λ r. n.lt begin (seconds r)) df in
      let d = keep (λ r. n.lt (seconds r) finish) above in if reset_ts then reset d else ok d
