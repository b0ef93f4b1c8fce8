-- ===== src/Ingress/Tests.antt =====
-- A run of the policy, and the theorem at a concrete input.
use tmuxatlas.Common.{ℕ, List, [], ◌∷◌, bytes, ltb, ◌+◌, ◌-◌, ◌*◌}
use Prim.Native.Nat.{min}
use tmuxatlas.Ingress.{Floats, Config, initial_policy}
use tmuxatlas.Ingress.Bounds.{Event, acquires, releases, run, IsBounded, limits_hold}

-- Whole tokens for float64.
abbrev whole : Floats ℕ
whole = record {
  of_int = λ n. n;
  is_positive = λ a. ltb 0 a;
  seconds = λ n. n;
  plus = λ a b. a + b;
  times = λ a b. a * b;
  minimum = λ a b. min a b;
  below_one = λ a. ltb a 1;
  minus_one = λ a. a - 1;
}

abbrev config : Config ℕ
config = record {
  global_max_in_flight = 2;
  max_sources_per_category = 1;
  source_idle_ttl = 60;
  cleanup_budget = 4;
  categories =
      (
        bytes "pairing",
        record {
          source_rate = 1;
          source_burst = 2;
          global_rate = 1;
          global_burst = 3;
          max_in_flight = 1;
        },
      )
      ∷ [];
}

abbrev events : List Event
events =
    acquires (bytes "pairing") (bytes "a") 10
    ∷ acquires (bytes "pairing") (bytes "b") 10
    ∷ releases 0
    ∷ releases 0
    ∷ []

limits_hold_example :
    IsBounded whole config (run whole config events (initial_policy whole config 5))
limits_hold_example = limits_hold whole config 5 events
