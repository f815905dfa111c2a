-- ===== src/Examples/Powers.antt =====
-- A zone whose counter starts again at 100: it shows 90, then 20 after 30 were used.
use cc_metric_collector.Prelude.{◌≡◌, refl, ℕ, some, List, [], ◌∷◌, arith}
use cc_metric_collector.Prelude.Int.{ℤ, pos, ◌-ℤ◌}
use cc_metric_collector.Prelude.Bytes.{is_space, codes}
use cc_metric_collector.Topology.Parse.{atoi, trim_space, trim_left, digits_value, natural}
use cc_metric_collector.Examples.Numbers.{floats}
use cc_metric_collector.Rapl.{zone_tags, ZoneInfo, Metrics, number_in}
use cc_metric_collector.Rapl.Energy.{Sample, IsAt, Shows, read_series, powers, read_series-powers}

abbrev package_zone : ZoneInfo ℕ
package_zone = record {
  tags = zone_tags (codes "0") (codes "package-0");
  energy_filepath = b'0' ∷ [];
  energy = pos 90;
  energy_timestamp = 1;
  max_energy_range = pos 100;
}

abbrev energies : Metrics ℤ ℕ ℤ
energies = record {
  microseconds = λ now before. pos now -ℤ pos before;
  new_metric = λ name tags meta power now. some power;
}

abbrev samples : List (Sample ℕ)
samples = record { used = 30; file = some (b'2' ∷ b'0' ∷ 10 ∷ []); now = 2 } ∷ []

samples-Shows : Shows 100 90 samples
unfolding number_in atoi trim_space trim_left is_space digits_value natural
samples-Shows = (omega arith, refl, tt)

package_zone-IsAt : IsAt package_zone 100 90
package_zone-IsAt = record { ranged = refl; last = refl; fits = omega arith; within = omega arith }

read_series-powers_example :
    read_series floats energies samples package_zone
    ≡ powers floats energies (zone_tags (codes "0") (codes "package-0")) 1 samples
read_series-powers_example =
    read_series-powers floats energies 100 90 samples package_zone package_zone-IsAt samples-Shows
