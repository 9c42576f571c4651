-- ===== src/Handover/Tests.antt =====
-- Runs of the handover statistics, and the theorems at a concrete run.
use emulator_test.Prelude.{
  ◌≤◌, ◌+◌, ◌≡◌, refl, inl, inr, List, [], ◌∷◌, Bool, count, arith, ok, raised, index_error,
}
use emulator_test.Prelude.Int.{ℤ, pos, eq_ℤ}
use emulator_test.Number.{number, whole_number, whole-IsOrdered}
use emulator_test.Iperf.Window.{zip, seconds, in_window}
use emulator_test.Handover.{Durations, get, filter_ho_types, filter_link_duration, link_thuputs}
use emulator_test.Handover.Types.{filter_ho_types_partition}
use emulator_test.Handover.Links.{stretches, spans, Tiles, filter_link_duration_lem}
use emulator_test.Handover.Coverage.{link_thuputs_cover}

abbrev times : List ℤ
times = pos 5 ∷ pos 9 ∷ pos 14 ∷ pos 20 ∷ []

-- The second handover stays on mmWave.
abbrev links : List ℤ
links = pos 2 ∷ pos 2 ∷ pos 1 ∷ pos 2 ∷ []

sub6_to_mmw : filter_ho_types times links (pos 1) (pos 2) (pos 1) ≡ ok (pos 5 ∷ pos 20 ∷ [])
unfolding filter_ho_types eq_ℤ
sub6_to_mmw = refl

durations :
    filter_link_duration times links (pos 30) (pos 1)
    ≡ ok (
        (pos 1, (pos 0, pos 5) ∷ (pos 14, pos 20) ∷ [])
        ∷ (pos 2, (pos 5, pos 14) ∷ (pos 20, pos 30) ∷ [])
        ∷ [])
unfolding filter_link_duration eq_ℤ
durations = refl

missing_link : filter_link_duration times (pos 2 ∷ []) (pos 30) (pos 1) ≡ raised index_error
unfolding filter_link_duration eq_ℤ
missing_link = refl

filter_ho_types_partition_example :
    (a b c d : List ℤ) × (filter_ho_types times links (pos 1) (pos 1) (pos 1) ≡ ok a)
    × (filter_ho_types times links (pos 1) (pos 2) (pos 1) ≡ ok b)
    × (filter_ho_types times links (pos 2) (pos 2) (pos 1) ≡ ok c)
    × (filter_ho_types times links (pos 2) (pos 1) (pos 1) ≡ ok d)
    × ((p : ℤ → Bool) → count p times ≡ count p a + count p b + count p c + count p d)
filter_ho_types_partition_example =
    filter_ho_types_partition times links (pos 1) (omega arith) (inl refl)
      (inr refl, (inr refl, (inl refl, (inr refl, tt))))

filter_link_duration_lem_example :
    (d : Durations ℤ) × (filter_link_duration times links (pos 30) (pos 1) ≡ ok d)
    × ((k : ℤ) → get k d ≡ spans k (stretches (pos 1) (number 0) times links (pos 30)))
    × Tiles (number 0) (pos 30) (stretches (pos 1) (number 0) times links (pos 30))
filter_link_duration_lem_example =
    filter_link_duration_lem times links (pos 30) (pos 1) (omega arith)

link_thuputs_cover_example :
    (sub6 mmw : List ℤ) × (link_thuputs times links times times (pos 30) ≡ ok (sub6, mmw))
    × ((p : ℤ → Bool)
        → count p (seconds (in_window (number 0) (pos 30) (zip times times)))
          ≤ count p sub6 + count p mmw)
link_thuputs_cover_example =
    link_thuputs_cover whole-IsOrdered times links times times (pos 30) (omega arith)
      (inr refl, (inr refl, (inl refl, (inr refl, tt))))
