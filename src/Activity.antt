-- ===== src/Activity.antt =====
-- pkg/activity/tracker.go: the bytes of output of each session in a ring of buckets. Times are
-- nanoseconds; an int64 is its residue modulo 2 ^ 64.
pub mod Ring
pub mod Sparkline
mod Tests
use Prim.Native.Nat.{◌/◌, ◌%◌, ◌^◌}
use tmuxatlas.Common.{
  ℕ, zero, suc, ◌+◌, ◌-◌, ◌*◌, Bool, List, [], ◌∷◌, Option, none, some, Text, text_key, Dict, get,
  put, remove, ltb, if◌then◌else◌, get_or, set, replicate,
}

abbrev pub bucket_duration : ℕ
bucket_duration = 15000000000

abbrev pub bucket_count : ℕ
bucket_count = 20

unfoldable pub add64 : ℕ → ℕ → ℕ
add64 a b = (a + b) % 2 ^ 64

pub record SessionActivity : Type 0 where
  pub buckets : List ℕ
  pub head_idx : ℕ
  pub head_time : ℕ
  pub last_active : ℕ
  pub total_bytes : ℕ

pub record Snapshot : Type 0 where
  pub session_name : Text
  pub host : Text
  pub idle : Option ℕ
  pub sparkline : List ℕ
  pub total_bytes : ℕ

-- now.Truncate(BucketDuration)
abbrev pub truncate : ℕ → ℕ
truncate now = now - now % bucket_duration

abbrev pub new_session_activity : ℕ → SessionActivity
new_session_activity now = record {
  buckets = replicate bucket_count 0;
  head_idx = 0;
  head_time = truncate now;
  last_active = 0;
  total_bytes = 0;
}

-- The loop over `steps`.
unfoldable pub clear_buckets : ℕ → SessionActivity → SessionActivity
clear_buckets zero sa = sa
clear_buckets (suc steps) sa =
    let idx = (sa.head_idx + 1) % bucket_count in
    clear_buckets steps (record sa { head_idx = idx; buckets = set sa.buckets idx 0 })

abbrev pub capped : ℕ → ℕ
capped steps = if ltb bucket_count steps then bucket_count else steps

-- The block that both Record and Get run.
unfoldable pub advance : ℕ → SessionActivity → SessionActivity
unfolding clear_buckets
advance now sa =
    if ltb sa.head_time (truncate now)
    then record (clear_buckets (capped ((truncate now - sa.head_time) / bucket_duration)) sa) {
      head_time = truncate now;
    }
    else sa

unfoldable pub record_bytes : ℕ → ℕ → SessionActivity → SessionActivity
unfolding advance add64
record_bytes now n sa =
    let moved =
      advance now (record sa { last_active = now; total_bytes = add64 sa.total_bytes n }) in
    record moved {
      buckets = set moved.buckets moved.head_idx (add64 (get_or moved.buckets moved.head_idx 0) n);
    }

-- The loop that fills the sparkline, from `i`.
unfoldable pub sparkline_from : ℕ → ℕ → SessionActivity → List ℕ
sparkline_from zero i sa = []
sparkline_from (suc left) i sa =
    get_or sa.buckets ((sa.head_idx + 1 + i) % bucket_count) 0 ∷ sparkline_from left (suc i) sa

unfoldable pub snapshot : Text → ℕ → SessionActivity → SessionActivity × Snapshot
unfolding advance sparkline_from
snapshot session now sa =
    let moved = advance now sa in
    (
      moved,
      record {
        session_name = session;
        host = [];
        idle = some (now - moved.last_active);
        sparkline = sparkline_from bucket_count 0 moved;
        total_bytes = moved.total_bytes;
      },
    )

-- Tracker.Record, Get and Remove; `idle` of a session never seen, -1 in the source, is none.
abbrev pub Tracker : Type 0
Tracker = Dict Text SessionActivity

abbrev pub session_or_new : Option SessionActivity → ℕ → SessionActivity
session_or_new none now = new_session_activity now
session_or_new (some sa) now = sa

unfoldable pub tracker_record : Text → ℕ → ℕ → Tracker → Tracker
unfolding record_bytes
tracker_record session now n tracker =
    put session (record_bytes now n (session_or_new (get session tracker) now)) tracker

abbrev pub snapshot_of : Option SessionActivity → Text → ℕ → Tracker → Tracker × Snapshot
snapshot_of none session now tracker = (
  tracker,
  record {
    session_name = session;
    host = [];
    idle = none;
    sparkline = replicate bucket_count 0;
    total_bytes = 0;
  },
)
snapshot_of (some sa) session now tracker =
    let (moved, s) = snapshot session now sa in (put session moved tracker, s)

unfoldable pub tracker_get : Text → ℕ → Tracker → Tracker × Snapshot
unfolding snapshot
tracker_get session now tracker = snapshot_of (get session tracker) session now tracker

unfoldable pub tracker_remove : Text → Tracker → Tracker
tracker_remove session tracker = remove session tracker
