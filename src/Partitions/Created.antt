-- ===== src/Partitions/Created.antt =====
-- What `ensure_partitions` creates (src/services/partitions.py).
use proxysm.Base.{◌≡◌}
use proxysm.Text.{Text}
use proxysm.Partitions.{Date, Partition}

-- The row of a day.
abbrev pub IsDay : Text → Date → Date → Partition → Type 0
IsDay name from to p = (p.name ≡ name) × (p.range_start ≡ from) × (p.range_end ≡ to)
