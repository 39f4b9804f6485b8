-- ===== src/Registry/Ports/Search.antt =====
-- `find_free_port` and `find_free_port_in_range` of src/registry.rs, by the ports they may
-- answer.
use tei_manager.Base.{
  ℕ, zero, suc, ◌+◌, ◌-◌, ◌≤◌, ◌<◌, ◌≡◌, ◌≢◌, refl, Bool, true, false, none, some, List, [], ◌∷◌,
  arith, All,
}
use tei_manager.Registry.Ports.{
  u16_max, saturating_add, try_offsets, find_free_port, is_used, scan, find_free_port_in_range,
}

pub is_used-false :
    (used : List ℕ) (port : ℕ) → is_used used port ≡ false → All (λ p. p ≢ port) used
unfolding is_used
is_used-false [] port h = tt
is_used-false (p ∷ used) port h = ground (arith, is_used-false used port)

pub is_used-false_of :
    (used : List ℕ) (port : ℕ) → All (λ p. p ≢ port) used → is_used used port ≡ false
unfolding is_used
is_used-false_of [] port h = refl
is_used-false_of (p ∷ used) port h = ground (arith, is_used-false_of used port h.1)

module _ (free : ℕ → Bool) (used : List ℕ) where
  -- A port that the search may give out.
  abbrev pub IsCandidate : ℕ → Type 0
  IsCandidate port = (is_used used port ≡ false) × (free port ≡ true)

  scan_sound :
      (lo count port : ℕ)
      → scan free used lo count ≡ some port
      → (lo ≤ port) × (port < lo + count) × IsCandidate port
  unfolding scan
  scan_sound lo zero port h = cc
  scan_sound lo (suc count) port h = ground (arith, scan_sound (lo + 1) count port)

  -- No candidate below what is found, and none at all where nothing is found.
  scan_first :
      (lo count port other : ℕ)
      → scan free used lo count ≡ some port
      → lo ≤ other
      → other < port
      → ¬ IsCandidate other
  unfolding scan
  scan_first lo zero port other h l u c = cc
  scan_first lo (suc count) port other h l u c =
      ground (arith, scan_first (lo + 1) count port other)

  scan-none :
      (lo count other : ℕ)
      → scan free used lo count ≡ none
      → lo ≤ other
      → other < lo + count
      → ¬ IsCandidate other
  unfolding scan
  scan-none lo zero other h l u c = omega arith
  scan-none lo (suc count) other h l u c = ground (arith, scan-none (lo + 1) count other)

  module _ (search_start range_start range_end : ℕ) (after_start : range_start ≤ search_start)
      (before_end : search_start ≤ range_end) where
    -- What the search gives out is in the range, not in use and free, if the range lies
    -- within the `u16` numbers and the search starts in it.
    pub range_sound :
        (port : ℕ)
        → find_free_port_in_range free search_start range_start range_end used ≡ some port
        → (range_start ≤ port) × (port < range_end) × IsCandidate port
    unfolding find_free_port_in_range
    range_sound port h = ground (
      arith,
      scan_sound search_start (range_end - search_start) port,
      scan_sound range_start (search_start - range_start) port,
    )

    -- The search gives up only where no port of the range is a candidate, if the range lies
    -- within the `u16` numbers and the search starts in it.
    pub range_none :
        (other : ℕ)
        → find_free_port_in_range free search_start range_start range_end used ≡ none
        → range_start ≤ other
        → other < range_end
        → ¬ IsCandidate other
    unfolding find_free_port_in_range
    range_none other h l u c = ground (
      arith,
      scan-none search_start (range_end - search_start) other,
      scan-none range_start (search_start - range_start) other,
    )

-- Where every port can be bound, the search for a Prometheus port succeeds at once.
module _ (free : ℕ → Bool) (all_free : (port : ℕ) → port ≤ u16_max → free port ≡ true) where
  try_offsets-ne-none :
      (start offset rounds : ℕ) → try_offsets free start offset (suc rounds) ≢ none
  unfolding try_offsets
  try_offsets-ne-none start offset rounds h =
      ground (arith, all_free (start + offset), all_free u16_max)

  pub find_free_port-ne-none : (start : ℕ) → find_free_port free start ≢ none
  unfolding find_free_port
  find_free_port-ne-none start = try_offsets-ne-none start 0 999

try_offsets_first :
    (free : ℕ → Bool) (start rounds : ℕ)
    → start ≤ u16_max
    → free start ≡ true
    → try_offsets free start 0 (suc rounds) ≡ some start
unfolding try_offsets
try_offsets_first free start rounds l h =
    let e : saturating_add start 0 ≡ start = ground arith in rw (e, h)

-- The search takes its start, if that can be bound.
pub find_free_port_first :
    (free : ℕ → Bool) (start : ℕ)
    → start ≤ u16_max
    → free start ≡ true
    → find_free_port free start ≡ some start
unfolding find_free_port
find_free_port_first free start l h = try_offsets_first free start 999 l h
