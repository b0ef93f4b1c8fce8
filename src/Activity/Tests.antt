-- ===== src/Activity/Tests.antt =====
-- A run of the ring, and the theorem at a concrete input.
use Prim.Native.Nat.{◌/◌}
use tmuxatlas.Common.{◌≡◌, List, [], ◌∷◌, arith, bytes, get_or, length}
use tmuxatlas.Activity.{bucket_duration, bucket_count, snapshot, new_session_activity}
use tmuxatlas.Activity.Ring.{recorded}
use tmuxatlas.Activity.Sparkline.{Call, records, reads, calls, logs, sparkline_sums}

abbrev some_calls : List Call
some_calls = records 315000000000 7 ∷ reads 330000000000 ∷ records 331000000000 5 ∷ []

sparkline_sums_example :
    let s =
      (snapshot
        (bytes "main")
        345000000000
        (calls some_calls (new_session_activity 315000000000))).1 in
    (length s.sparkline ≡ bucket_count)
    × (get_or s.sparkline 18 0
        ≡ recorded 22 (logs some_calls (315000000000 / bucket_duration, [])).1)
sparkline_sums_example =
    sparkline_sums (bytes "main") 315000000000 some_calls 345000000000 18 22 (omega arith)
      (unfold logs in omega arith)
