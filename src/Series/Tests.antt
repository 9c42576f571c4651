-- ===== src/Series/Tests.antt =====
-- A run's series on small logs.
use emulator_test.Prelude.{◌≡◌, refl, List, [], ◌∷◌, true, false, some, ok, raised, key_error}
use emulator_test.Prelude.Int.{ℤ, pos, ◌-ℤ◌}
use emulator_test.Number.{whole_number}
use emulator_test.Text.{codes, text_eq}
use emulator_test.Series.{IperfLog, SeriesRow, receiver, udp, read_iperf, set_df_range}

abbrev series : List (SeriesRow ℤ)
series =
    receiver (pos 1) (pos 50)
    ∷ receiver (pos 2) (pos 60)
    ∷ receiver (pos 3) (pos 70)
    ∷ receiver (pos 5) (pos 80)
    ∷ []

abbrev udp_log : IperfLog ℤ
udp_log = record {
  timesecs = pos 1700;
  protocol = codes "UDP";
  intervals =
      record {
        sum = record {
          start = pos 0;
          bits_per_second = pos 9;
          jitter_ms = some (pos 2);
          lost_percent = some (pos 1);
        };
        streams = [];
      }
      ∷ [];
}

inside :
    set_df_range series (pos 1, pos 5) false
    ≡ ok (receiver (pos 2) (pos 60) ∷ receiver (pos 3) (pos 70) ∷ [])
unfolding set_df_range
inside = refl

from_first :
    set_df_range series (pos 1, pos 5) true
    ≡ ok (receiver (pos 0) (pos 60) ∷ receiver (pos 1) (pos 70) ∷ [])
unfolding set_df_range ◌-ℤ◌
from_first = refl

nothing_inside : set_df_range series (pos 3, pos 5) true ≡ raised key_error
unfolding set_df_range
nothing_inside = refl

reads_udp :
    read_iperf (λ x. x) (λ x. x) udp_log true
    ≡ ok (udp (pos 0) (pos 9) (pos 2) (pos 1) ∷ [], pos 1700)
unfolding read_iperf text_eq
reads_udp = refl
