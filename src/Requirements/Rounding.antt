-- ===== src/Requirements/Rounding.antt =====
-- rc/control/daqinterface.py, `num_processes_required_by_fraction`: the rounding.
use artdaq_daqinterface.Prelude.{ℕ, ◌+◌, ◌*◌, ◌≤◌, ◌<◌, ◌≡◌, String, List, arith}
use artdaq_daqinterface.Procinfo.{Procinfo}
use artdaq_daqinterface.Requirements.{
  Searches, million, round_millionths, absolute_count, num_processes_required_by_fraction,
}

round-bounds :
    (x : ℕ)
    → (x ≤ round_millionths (x + 499999) * million + 1)
      × (round_millionths (x + 499999) * million < x + million)
unfolding round_millionths
round-bounds x = ground arith

-- The number that a fraction requires is the matching count times the fraction rounded up: it is not
-- less (by more than a millionth), it is less than one above, and for the fraction 1 it is the count.
pub num_processes_rounds :
    (re : Searches) (procinfos : List Procinfo) (regexp : String) (fraction : ℕ)
    → let n = num_processes_required_by_fraction re procinfos regexp fraction in
      let count = absolute_count re procinfos regexp procinfos in
      (count * fraction ≤ n * million + 1)
      × (n * million < count * fraction + million)
      × (num_processes_required_by_fraction re procinfos regexp million ≡ count)
unfolding num_processes_required_by_fraction
num_processes_rounds re procinfos regexp fraction =
    let count = absolute_count re procinfos regexp procinfos in
    let (up, near) = round-bounds (count * fraction) in
    let (up', near') = round-bounds (count * million) in (up, near, omega arith)
