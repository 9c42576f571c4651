-- ===== src/Transit.antt =====
-- `calculate_transit` of scripts/processing/parse-logs.py and the part of its main block that reads the packets.
-- pandas' `sort_values`, `groupby("seq").min()`, `merge` and `isna` are arguments. A data frame is the list of its
-- rows, with the columns that are read.
pub mod Earliest
pub mod Pipeline
mod Joins
mod Tests
use emulator_test.Prelude.{
  List, [], ◌∷◌, map, Bool, true, false, not, ◌&&◌, keep, Option, none, some, if◌then◌else◌, Result,
  ok, raised, index_error, ◌>>=◌,
}
use emulator_test.Prelude.Int.{ℤ}
use emulator_test.Number.{Number, number}
use emulator_test.Text.{Text}
use emulator_test.PacketLog.{Row, process_server_log}
use emulator_test.Frames.{check_rollover}
use emulator_test.Jitter.{calculate_jitter}

-- A row of the client's packets.
pub record ClientRow {ℓ} (F : Type ℓ) : Type ℓ where
  pub time : F
  pub epoch : F
  pub src_port : ℤ
  pub seq : ℤ

pub record TransitRow {ℓ} (F : Type ℓ) : Type ℓ where
  pub seq : ℤ
  pub epoch_server : F
  pub epoch_client : F
  pub transit_time : F
  pub time : F

-- The main block stops at a rollover, or writes the transit times and the jitter.
pub data Written {ℓ} (F : Type ℓ) : Type ℓ where
  stopped : Written F
  written : List (TransitRow F) → List F → Written F

module _ {ℓ} {F : Type ℓ} ⦃n : Number F⦄ where
  -- `args.begin` and `args.end`, which are 0 and 1200 where they are not given
  unfoldable pub or_default : Option F → F → F
  or_default none default = default
  or_default (some t) default = t

  -- `merged["transit_time"]`
  with_transit : ℤ × F × F → ℤ × F × F × F
  with_transit (seq, server, client) = (seq, server, client, n.minus client server)

  -- `merged["time"]`, behind the first row
  with_time : F → ℤ × F × F × F → TransitRow F
  with_time first (seq, server, client, transit) = record {
    seq = seq;
    epoch_server = server;
    epoch_client = client;
    transit_time = transit;
    time = n.minus client first;
  }

  -- `dropna`
  is_whole : (F → Bool) → ℤ × F × F × F → Bool
  is_whole is_na (seq, server, client, transit) =
      not (is_na server) && not (is_na client) && not (is_na transit)

  -- `filter_relative_time_range` of either data frame
  unfoldable pub client_range :
      (List (ClientRow F) → List (ClientRow F)) → F → F → List (ClientRow F) → List (ClientRow F)
  client_range sort_client begin end df =
      sort_client (keep (λ r. n.le begin r.time && n.le r.time end) df)

  unfoldable pub server_range : (List (Row F) → List (Row F)) → F → F → List (Row F) → List (Row F)
  server_range sort_server begin end df =
      sort_server (keep (λ r. n.le begin r.time && n.le r.time end) df)

  -- The columns that are grouped.
  unfoldable pub client_epochs : List (ClientRow F) → List (ℤ × F)
  client_epochs = map (λ r. (r.seq, r.epoch))

  unfoldable pub server_epochs : List (Row F) → List (ℤ × F)
  server_epochs = map (λ r. (r.seq, r.epoch))

  -- `df_client.src_port.unique()[0]`
  first_port : List (ClientRow F) → Result ℤ
  first_port [] = raised index_error
  first_port (r ∷ rs) = ok r.src_port

  module _ (earliest_of : List (ℤ × F) → List (ℤ × F))
      (merge : List (ℤ × F) → List (ℤ × F) → List (ℤ × F × F)) (is_na : F → Bool) where
    unfoldable pub calculate_transit : List (ℤ × F) → List (ℤ × F) → Result (List (TransitRow F))
    unfolding with_transit with_time is_whole
    calculate_transit df_server df_client =
        elim (keep (is_whole is_na)
          (map with_transit (merge (earliest_of df_server) (earliest_of df_client)))) [
            | [] ↦ raised index_error
            | (seq, server, first, transit) ∷ rows ↦
                ok (map (with_time first) ((seq, server, first, transit) ∷ rows))
          ]

    module _ (sort_client : List (ClientRow F) → List (ClientRow F))
        (sort_server : List (Row F) → List (Row F)) (sort_seqs : List ℤ → List ℤ) where
      match_packets : Text → F → F → List (ClientRow F) → Result (Written F)
      unfolding server_range first_port calculate_transit
      match_packets text begin end df_client = do
        target_port ← first_port df_client
        df_server ← process_server_log text target_port
        matched ←
            calculate_transit (server_epochs (server_range sort_server begin end df_server))
              (client_epochs df_client)
        jitter ← calculate_jitter (map (λ r. r.transit_time) matched)
        ok (written matched jitter)

      -- The part of the main block from the two files of packets.
      pub packet_metrics : Text → List (ClientRow F) → Option F → Option F → Result (Written F)
      unfolding match_packets client_range
      packet_metrics text client begin end =
          let begin_time = or_default begin (number 0) in
          let end_time = or_default end (number 1200) in
          let df_client = client_range sort_client begin_time end_time client in
          elim (check_rollover sort_seqs (map (λ r. r.seq) df_client)) [
            | [] ↦ match_packets text begin_time end_time df_client
            | seq ∷ seqs ↦ ok stopped
          ]
