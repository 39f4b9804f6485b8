-- ===== src/Registry/Ports.antt =====
-- The two searches for a free port of src/registry.rs.
pub mod Search
pub mod Pigeonhole
use tei_manager.Base.{
  ℕ, zero, suc, ◌+◌, ◌-◌, Bool, true, false, not, ◌&&◌, ◌||◌, Option, none, some, List, [], ◌∷◌,
  leb, ◌==◌, if◌then◌else◌,
}

abbrev pub u16_max : ℕ
u16_max = 65535

-- `u16::saturating_add`.
abbrev pub saturating_add : ℕ → ℕ → ℕ
saturating_add a b = if leb (a + b) u16_max then a + b else u16_max

abbrev pub max_attempts : ℕ
max_attempts = 1000

-- `for offset in offset..offset + rounds`.
unfoldable pub try_offsets : (ℕ → Bool) → ℕ → ℕ → ℕ → Option ℕ
try_offsets free start offset zero = none
try_offsets free start offset (suc rounds) =
    let port = saturating_add start offset in
    let rest = try_offsets free start (offset + 1) rounds in if free port then some port else rest

-- `Registry::find_free_port`.
unfoldable pub find_free_port : (ℕ → Bool) → ℕ → Option ℕ
find_free_port free start = try_offsets free start 0 max_attempts

unfoldable pub is_used : List ℕ → ℕ → Bool
is_used [] port = false
is_used (p ∷ ps) port = p == port || is_used ps port

-- `for port in port..port + count`.
unfoldable pub scan : (ℕ → Bool) → List ℕ → ℕ → ℕ → Option ℕ
scan free used port zero = none
scan free used port (suc count) =
    let rest = scan free used (port + 1) count in
    if not (is_used used port) && free port then some port else rest

abbrev or_search : Option ℕ → Option ℕ → Option ℕ
or_search none later = later
or_search (some port) later = some port

-- `Registry::find_free_port_in_range`: from `search_start` to the end, then from the start to
-- `search_start`. A Rust range whose end is below its start is empty, as the subtraction here.
unfoldable pub find_free_port_in_range : (ℕ → Bool) → ℕ → ℕ → ℕ → List ℕ → Option ℕ
find_free_port_in_range free search_start range_start range_end used =
    let later = scan free used range_start (search_start - range_start) in
    or_search (scan free used search_start (range_end - search_start)) later
