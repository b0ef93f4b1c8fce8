-- ===== src/Fleet/Tests.antt =====
-- The theorem about the summary at a concrete input.
use tmuxatlas.Common.{
  ℕ, ◌≤◌, ◌≡◌, ◌&&◌, ◌==◌, true, false, [], ◌∷◌, none, some, bytes, same_text, All, any,
}
use tmuxatlas.Fleet.{Facts, Formats, evaluate}
use tmuxatlas.Fleet.Summary.{summary_tells_worst}
use tmuxatlas.Fleet.Well.{is_well}

abbrev plain : Formats
plain = record {
  parse_version = λ t. some (record { major = 1; minor = 2; patch = 3 });
  itoa = λ n. n ∷ [];
  time_text = λ n. n ∷ [];
  duration_text = λ n. n ∷ [];
}

-- Out of date and with a failed check.
abbrev laptop : Facts
laptop = record {
  online = some true;
  last_seen = 90;
  last_state_sync = 10;
  version = bytes "v1.2.3";
  hub_version = bytes "v1.2.3";
  protocol_version = some 2;
  protocol_min = some 1;
  protocol_max = some 2;
  checks = record { name = bytes "hooks"; is_ok = some false; message = []; command = [] } ∷ [];
  deployment = bytes "docker";
  last_update = none;
}

summary_tells_worst_example :
    (same_text (evaluate plain laptop 100 30).0 (bytes "healthy") ≡ is_well plain laptop 100 30)
    × ((worst : ℕ) × All (λ r. r.severity ≤ worst) (evaluate plain laptop 100 30).1
        × (any
              (λ r. same_text r.code (evaluate plain laptop 100 30).0 && r.severity == worst)
              (evaluate plain laptop 100 30).1
            ≡ true))
summary_tells_worst_example = summary_tells_worst plain laptop 100 30
