-- ===== src/Requests/Lifetimes.antt =====
-- The lifetimes that are parsed and sent.
use uam_backend.Prelude.{
  none, some, Text, ℕ, ◌≤◌, ◌≡◌, ◌/◌, ◌⊎◌, ◌+◌, ◌*◌, arith, Option-cases, inl, inr, suc, zero, refl,
}
use uam_backend.Requests.{parse_expiry, remaining_ttl_secs, parse_expiry_ms, match_expiry}

-- The two parsers agree up to the unit on every text that has the form of a lifetime, and fall back
-- to a quarter of an hour and to a week on the others.
pub parse_expiry_ms-parse_expiry :
    (expiry : Text)
    → ((match_expiry expiry ≡ none)
        × (parse_expiry expiry ≡ 900)
        × (parse_expiry_ms expiry ≡ 604_800_000))
      ⊎ (parse_expiry_ms expiry ≡ parse_expiry expiry * 1_000)
unfolding parse_expiry parse_expiry_ms
parse_expiry_ms-parse_expiry expiry = elim (Option-cases (match_expiry expiry)) [
  | inl e ↦ inl (e, rw (e, parse_expiry) refl, rw (e, parse_expiry_ms) refl)
  | inr (r, e) ↦ inr (rw (e, parse_expiry, parse_expiry_ms) (ground arith))
]

-- The lifetime sent with the revocation of a token that names an end, in seconds, is between a
-- minute and a day, and lasts up to that end, unless the end is a day or more away.
pub remaining_ttl_secs-range :
    (now n : ℕ)
    → (60 ≤ remaining_ttl_secs now (some n))
      × (remaining_ttl_secs now (some n) ≤ 86_400)
      × ((n ≤ now / 1_000 + remaining_ttl_secs now (some n)) ⊎ (now / 1_000 + 86_400 ≤ n))
unfolding remaining_ttl_secs
remaining_ttl_secs-range now zero = (ground arith, ground arith, inl (omega arith))
remaining_ttl_secs-range now (suc n) = (ground arith, ground arith, ground arith)
