-- ===== src/Ingress.antt =====
-- pkg/ingress/policy.go: the admission of requests by rate and by concurrency. Times are
-- nanoseconds, the arithmetic of float64 is a parameter.
pub mod Bounds
mod Tests
use tmuxatlas.Common.{
  ℕ, zero, suc, ◌+◌, ◌-◌, Bool, true, false, not, ◌&&◌, ◌||◌, List, [], ◌∷◌, Option, none, some,
  Text, bytes, text_key, ℕ_key, Dict, get, put, length, take, leb, ltb, ◌==◌, if◌then◌else◌,
  trim_space, is_empty, Result, ok, err,
}

-- What the code computes with float64.
pub record Floats (F : Type 0) : Type 0 where
  pub of_int : ℕ → F
  pub is_positive : F → Bool  -- neither zero or less nor NaN nor infinite
  pub seconds : ℕ → F
  pub plus : F → F → F
  pub times : F → F → F
  pub minimum : F → F → F
  pub below_one : F → Bool
  pub minus_one : F → F

pub data RejectReason : Type 0 where
  rate_limited concurrency_limited source_capacity unknown_category : RejectReason

pub record CategoryLimits (F : Type 0) : Type 0 where
  pub source_rate : F
  pub source_burst : ℕ
  pub global_rate : F
  pub global_burst : ℕ
  pub max_in_flight : ℕ

pub record Config (F : Type 0) : Type 0 where
  pub global_max_in_flight : ℕ
  pub max_sources_per_category : ℕ
  pub source_idle_ttl : ℕ
  pub cleanup_budget : ℕ
  pub categories : Dict Text (CategoryLimits F)

pub record TokenBucket (F : Type 0) : Type 0 where
  pub tokens : F
  pub last : ℕ
  pub last_seen : ℕ

pub record CategoryState (F : Type 0) : Type 0 where
  pub global : TokenBucket F
  pub sources : Dict Text (TokenBucket F)
  pub in_flight : ℕ

-- The leases whose sync.Once has not run, each with the category its closure releases.
pub record Policy (F : Type 0) : Type 0 where
  pub categories : Dict Text (CategoryState F)
  pub global_in_flight : ℕ
  pub rejections : List (Text × RejectReason)
  pub leases : Dict ℕ Text
  pub next_lease : ℕ

-- The first lease with an identity is taken out.
unfoldable pub without : ℕ → Dict ℕ Text → Dict ℕ Text
without t [] = []
without t ((s, c) ∷ leases) =
    let others = without t leases in if s == t then leases else (s, c) ∷ others

unfoldable pub normalize_source : Text → Text
normalize_source source =
    let trimmed = trim_space source in
    if is_empty trimmed
    then bytes "unknown"
    else if ltb 128 (length trimmed)
    then take 128 trimmed
    else trimmed

module _ {F : Type 0} (floats : Floats F) where
  open floats use {of_int, is_positive, seconds, plus, times, minimum, below_one, minus_one}

  abbrev pub new_token_bucket : ℕ → ℕ → TokenBucket F
  new_token_bucket burst now = record { tokens = of_int burst; last = now; last_seen = now }

  unfoldable pub refill : TokenBucket F → F → ℕ → ℕ → TokenBucket F
  refill bucket rate burst now =
      if ltb bucket.last now
      then record {
        tokens =
            minimum (of_int burst) (plus bucket.tokens (times (seconds (now - bucket.last)) rate));
        last = now;
        last_seen = now;
      }
      else record bucket { last_seen = now }

  abbrev pub zero_limits : CategoryLimits F
  zero_limits = record {
    source_rate = of_int 0;
    source_burst = 0;
    global_rate = of_int 0;
    global_burst = 0;
    max_in_flight = 0;
  }

  -- p.config.Categories[category]
  abbrev pub limits_or_zero : Option (CategoryLimits F) → CategoryLimits F
  limits_or_zero none = zero_limits
  limits_or_zero (some limits) = limits

  unfoldable pub new_categories : ℕ → Dict Text (CategoryLimits F) → Dict Text (CategoryState F)
  new_categories now [] = []
  new_categories now ((category, limits) ∷ rest) =
      (
        category,
        record { global = new_token_bucket limits.global_burst now; sources = []; in_flight = 0 },
      )
      ∷ new_categories now rest

  valid_limits : Dict Text (CategoryLimits F) → Bool
  valid_limits [] = true
  valid_limits ((category, limits) ∷ rest) =
      not (is_empty category)
      && is_positive limits.source_rate
      && is_positive limits.global_rate
      && not (limits.source_burst == 0 || limits.global_burst == 0 || limits.max_in_flight == 0)
      && valid_limits rest

  unfoldable pub validate_config : Config F → Bool
  unfolding valid_limits
  validate_config config =
      not (
        config.global_max_in_flight == 0
        || config.max_sources_per_category == 0
        || config.source_idle_ttl == 0
        || config.cleanup_budget == 0
        || length config.categories == 0)
      && valid_limits config.categories

  -- NewPolicy after the check.
  unfoldable pub initial_policy : Config F → ℕ → Policy F
  unfolding new_categories
  initial_policy config now = record {
    categories = new_categories now config.categories;
    global_in_flight = 0;
    rejections = [];
    leases = [];
    next_lease = 0;
  }

  unfoldable pub new_policy : Config F → ℕ → Option (Policy F)
  unfolding validate_config initial_policy
  new_policy config now = if validate_config config then some (initial_policy config now) else none

  -- The scan of cleanupSources: at most `budget` entries are looked at.
  unfoldable pub cleanup_sources : ℕ → ℕ → ℕ → Dict Text (TokenBucket F) → Dict Text (TokenBucket F)
  cleanup_sources zero ttl now sources = sources
  cleanup_sources (suc budget) ttl now [] = []
  cleanup_sources (suc budget) ttl now ((source, bucket) ∷ rest) =
      let others = cleanup_sources budget ttl now rest in
      if leb ttl (now - bucket.last_seen) then others else (source, bucket) ∷ others

  -- Acquire from the refills on, with the source's bucket.
  unfoldable pub charge :
      CategoryLimits F
      → ℕ
      → Text
      → TokenBucket F
      → CategoryState F
      → Option RejectReason × CategoryState F
  unfolding refill
  charge limits now source bucket state =
      let all = refill state.global limits.global_rate limits.global_burst now in
      let own = refill bucket limits.source_rate limits.source_burst now in
      if below_one all.tokens || below_one own.tokens
      then (
        some rate_limited,
        record state { global = all; sources = put source own state.sources },
      )
      else (
        none,
        record state {
          global = record all { tokens = minus_one all.tokens };
          sources = put source (record own { tokens = minus_one own.tokens }) state.sources;
          in_flight = suc state.in_flight;
        },
      )

  -- By what the sources hold for the source.
  unfoldable pub admit_as :
      Option (TokenBucket F)
      → Config F
      → CategoryLimits F
      → ℕ
      → Text
      → CategoryState F
      → Option RejectReason × CategoryState F
  unfolding charge
  admit_as (some bucket) config limits now source state = charge limits now source bucket state
  admit_as none config limits now source state =
      if leb config.max_sources_per_category (length state.sources)
      then (some source_capacity, state)
      else charge limits now source (new_token_bucket limits.source_burst now) state

  unfoldable pub admit :
      Config F
      → CategoryLimits F
      → ℕ
      → Text
      → CategoryState F
      → Option RejectReason × CategoryState F
  unfolding admit_as cleanup_sources normalize_source
  admit config limits now source state =
      let cleaned = record state {
        sources = cleanup_sources config.cleanup_budget config.source_idle_ttl now state.sources;
      } in
      let label = normalize_source source in
      admit_as (get label cleaned.sources) config limits now label cleaned

  -- The policy with a category's new state: a rejection is counted, an admission gets a lease.
  abbrev pub settle :
      Text → Option RejectReason × CategoryState F → Policy F → Result RejectReason ℕ × Policy F
  settle category (some reason, state) policy = (
    err reason,
    record policy {
      categories = put category state policy.categories;
      rejections = (category, reason) ∷ policy.rejections;
    },
  )
  settle category (none, state) policy = (
    ok policy.next_lease,
    record policy {
      categories = put category state policy.categories;
      global_in_flight = suc policy.global_in_flight;
      leases = (policy.next_lease, category) ∷ policy.leases;
      next_lease = suc policy.next_lease;
    },
  )

  -- Acquire, by what the policy holds for the category.
  unfoldable pub acquire_as :
      Option (CategoryState F)
      → Config F
      → Text
      → Text
      → ℕ
      → Policy F
      → Result RejectReason ℕ × Policy F
  unfolding admit
  acquire_as none config category source now policy = (
    err unknown_category,
    record policy { rejections = (category, unknown_category) ∷ policy.rejections },
  )
  acquire_as (some state) config category source now policy =
      let limits = limits_or_zero (get category config.categories) in
      if leb config.global_max_in_flight policy.global_in_flight
        || leb limits.max_in_flight state.in_flight
      then (
        err concurrency_limited,
        record policy { rejections = (category, concurrency_limited) ∷ policy.rejections },
      )
      else settle category (admit config limits now source state) policy

  unfoldable pub acquire : Config F → Text → Text → ℕ → Policy F → Result RejectReason ℕ × Policy F
  unfolding acquire_as
  acquire config category source now policy =
      acquire_as (get category policy.categories) config category source now policy

  -- The closure of a lease: both counts go down, each where it is positive.
  abbrev pub released :
      Option (CategoryState F) → Text → Dict Text (CategoryState F) → Dict Text (CategoryState F)
  released none category categories = categories
  released (some state) category categories =
      put category (record state { in_flight = state.in_flight - 1 }) categories

  -- Lease.Release, by the category of the lease, or none where its sync.Once has run.
  abbrev release_as : Option Text → ℕ → Policy F → Policy F
  release_as none lease policy = policy
  release_as (some category) lease policy = record policy {
    categories = released (get category policy.categories) category policy.categories;
    global_in_flight = policy.global_in_flight - 1;
    leases = without lease policy.leases;
  }

  unfoldable pub release : ℕ → Policy F → Policy F
  unfolding without
  release lease policy = release_as (get lease policy.leases) lease policy
