-- ===== src/Transit/Pipeline.antt =====
-- The packets of the main block of parse-logs.py, from the two files to the jitter.
use mathlib.Core.List.{Memᴰ}
use emulator_test.Prelude.{
  ◌≡◌, refl, sym, ap, ◌∙◌, suc, List, [], ◌∷◌, map, length, length-map, Bool, false, Option, ok,
}
use emulator_test.Prelude.Int.{ℤ}
use emulator_test.Number.{Number, number}
use emulator_test.Text.{Text}
use emulator_test.PacketLog.{Row, process_server_log}
use emulator_test.Frames.{check_rollover}
use emulator_test.Jitter.Rfc.{calculate_jitter_lem}
use emulator_test.Transit.{
  ClientRow, TransitRow, written, or_default, client_range, server_range, client_epochs,
  server_epochs, first_port, calculate_transit, match_packets, packet_metrics,
}
use emulator_test.Transit.Earliest.{IsGroupMin, IsInnerJoin, IsTransit, calculate_transit_lem}

module _ {ℓ} {F : Type ℓ} ⦃n : Number F⦄ (earliest_of : List (ℤ × F) → List (ℤ × F))
    (merge : List (ℤ × F) → List (ℤ × F) → List (ℤ × F × F)) (is_na : F → Bool)
    (sort_client : List (ClientRow F) → List (ClientRow F))
    (sort_server : List (Row F) → List (Row F)) (sort_seqs : List ℤ → List ℤ) where
  match_packets-written :
      (text : Text) (begin end : F) (c : ClientRow F) (cs : List (ClientRow F))
      (server : List (Row F)) (row : TransitRow F) (rows : List (TransitRow F))
      → process_server_log text c.src_port ≡ ok server
      → calculate_transit earliest_of merge is_na
          (server_epochs (server_range sort_server begin end server))
          (client_epochs (c ∷ cs))
        ≡ ok (row ∷ rows)
      → (jitters : List F) × (match_packets earliest_of merge is_na sort_client sort_server
            sort_seqs text begin end
            (c ∷ cs)
          ≡ ok (written (row ∷ rows) (number 0 ∷ jitters)))
        × (length (row ∷ rows) ≡ suc (length jitters))
  unfolding match_packets first_port
  match_packets-written text begin end c cs server row rows read transit =
      let (js, jitter, same, shape, late) =
        calculate_jitter_lem row.transit_time (map (λ r. r.transit_time) rows) in
      (
        js,
        rw (read, transit, jitter) refl,
        ap suc (sym (same ∙ length-map (λ r. r.transit_time) rows)),
      )

  no_rollover :
      (text : Text) (client : List (ClientRow F)) (begin end : Option F)
      (df_client : List (ClientRow F))
      → client_range sort_client (or_default begin (number 0)) (or_default end (number 1200)) client
        ≡ df_client
      → check_rollover sort_seqs (map (λ r. r.seq) df_client) ≡ []
      → packet_metrics earliest_of merge is_na sort_client sort_server sort_seqs text client begin
          end
        ≡ match_packets earliest_of merge is_na sort_client sort_server sort_seqs text
            (or_default begin (number 0))
            (or_default end (number 1200))
            df_client
  unfolding packet_metrics
  no_rollover text client begin end df_client ranged steady =
      rw (ranged, steady, packet_metrics)
        (ap (match_packets earliest_of merge is_na sort_client sort_server sort_seqs text _ _)
          ranged)

  -- Away from NaN, and where `groupby` and `merge` do what pandas says of them: when the client has packets in
  -- the range without a rollover, the server's log can be read for the port of the first of them, and a
  -- packet of both sides is in the range, the main block writes the transit times and as many jitters, the
  -- first of them 0; each transit time is that of the earliest packets of its sequence number.
  pub packet_metrics_lem :
      (text : Text) (client : List (ClientRow F)) (begin end : Option F) (c : ClientRow F)
      (cs : List (ClientRow F)) (server : List (Row F)) (seq : ℤ) (s e : F)
      → IsGroupMin earliest_of
      → IsInnerJoin merge
      → ((x : F) → is_na x ≡ false)
      → client_range sort_client (or_default begin (number 0)) (or_default end (number 1200)) client
        ≡ c ∷ cs
      → check_rollover sort_seqs (map (λ r. r.seq) (c ∷ cs)) ≡ []
      → process_server_log text c.src_port ≡ ok server
      → Memᴰ
          (seq, s)
          (server_epochs (
            server_range sort_server
              (or_default begin (number 0))
              (or_default end (number 1200))
              server))
      → Memᴰ (seq, e) (client_epochs (c ∷ cs))
      → (rows : List (TransitRow F)) × (jitters : List F) × (packet_metrics earliest_of merge is_na
            sort_client sort_server sort_seqs text client begin end
          ≡ ok (written rows (number 0 ∷ jitters)))
        × (length rows ≡ suc (length jitters))
        × ((r : TransitRow F)
            → Memᴰ r rows
            → IsTransit
                (server_epochs (
                  server_range sort_server
                    (or_default begin (number 0))
                    (or_default end (number 1200))
                    server))
                (client_epochs (c ∷ cs))
                r)
  packet_metrics_lem text client begin end c cs server seq s e grouped joined no_na ranged steady
        read ms mc =
      let (row, rows, transit, right, complete) =
        calculate_transit_lem earliest_of merge is_na grouped joined no_na _ _ seq s e ms mc in
      let (js, result, same) = match_packets-written text _ _ c cs server row rows read transit in
      (
        row ∷ rows,
        js,
        no_rollover text client begin end (c ∷ cs) ranged steady ∙ result,
        same,
        right,
      )
