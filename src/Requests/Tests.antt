-- ===== src/Requests/Tests.antt =====
-- The theorem on lifetimes at a concrete input.
use uam_backend.Prelude.{some, ◌≤◌, ◌/◌, ◌+◌, ◌⊎◌}
use uam_backend.Requests.{remaining_ttl_secs}
use uam_backend.Requests.Lifetimes.{remaining_ttl_secs-range}

remaining_ttl_secs-range_example :
    (60 ≤ remaining_ttl_secs 5_000_000 (some 5_010))
    × (remaining_ttl_secs 5_000_000 (some 5_010) ≤ 86_400)
    × ((5_010 ≤ 5_000_000 / 1_000 + remaining_ttl_secs 5_000_000 (some 5_010))
        ⊎ (5_000_000 / 1_000 + 86_400 ≤ 5_010))
remaining_ttl_secs-range_example = remaining_ttl_secs-range 5_000_000 5_010
