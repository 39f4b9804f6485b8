-- ===== src/Base/Text.antt =====
-- Texts by their code points: what the program asks of a string beyond equality.
use Prim.Native.Nat.{ℕ, ◌+◌, ◌-◌, ◌*◌, ◌≤◌}
use Prim.Native.Char.{code}
use Prim.Native.String.{String}
use mathlib.Core.Path.{◌≡◌}
use mathlib.Core.Bool.{Bool, true, false, ◌&&◌, ◌||◌}
use mathlib.Core.Option.{Option, none, some}
use mathlib.Core.List.{List, [], ◌∷◌}
use native.Mathlib.Omega.{arith}
use text.Mathlib.Text.{◌==◌ as str_eq}
use tei_manager.Base.Tests.{leb, ◌==◌, if◌then◌else◌}

abbrev pub codes : String → List ℕ
codes String.[] = []
codes (String.◌∷◌ c s) = code c ∷ codes s

-- `str::contains` of one character.
unfoldable pub contains_code : ℕ → List ℕ → Bool
contains_code c [] = false
contains_code c (d ∷ ds) = c == d || contains_code c ds

-- The value of a run of decimal digits read so far, if it stays at most `top`.
unfoldable pub parse_digits : ℕ → ℕ → List ℕ → Option ℕ
parse_digits top acc [] = some acc
parse_digits top acc (c ∷ cs) =
    let value = acc * 10 + (c - b'0') in
    let rest = parse_digits top value cs in
    if leb b'0' c && leb c b'9' && leb value top then rest else none

-- `str::parse` of an unsigned integer of largest value `top`: a `+` may stand first, no digit is
-- an error, and so is a value that does not fit.
unfoldable pub parse_unsigned : ℕ → List ℕ → Option ℕ
parse_unsigned top [] = none
parse_unsigned top (c ∷ []) = if c == b'+' then none else parse_digits top 0 (c ∷ [])
parse_unsigned top (c ∷ d ∷ cs) =
    if c == b'+' then parse_digits top 0 (d ∷ cs) else parse_digits top 0 (c ∷ d ∷ cs)

-- `str::parse` of a `bool`.
unfoldable pub parse_bool : String → Option Bool
parse_bool s = if str_eq s "true" then some true else if str_eq s "false" then some false else none

parse_digits-le :
    (top acc : ℕ) (cs : List ℕ) (v : ℕ) → acc ≤ top → parse_digits top acc cs ≡ some v → v ≤ top
unfolding parse_digits
parse_digits-le top acc [] v h e = ground arith
parse_digits-le top acc (c ∷ cs) v h e =
    ground (arith, parse_digits-le top (acc * 10 + (c - b'0')) cs v)

-- What is parsed fits the machine integer.
pub parse_unsigned-le : (top : ℕ) (cs : List ℕ) (v : ℕ) → parse_unsigned top cs ≡ some v → v ≤ top
unfolding parse_unsigned
parse_unsigned-le top [] v e = ground arith
parse_unsigned-le top (c ∷ []) v e = ground (arith, parse_digits-le top 0 (c ∷ []) v (omega arith))
parse_unsigned-le top (c ∷ d ∷ cs) v e = ground (
  arith,
  parse_digits-le top 0 (d ∷ cs) v (omega arith),
  parse_digits-le top 0 (c ∷ d ∷ cs) v (omega arith),
)

-- `str::contains` of a text.
unfoldable pub has_prefix : List ℕ → List ℕ → Bool
has_prefix [] s = true
has_prefix (p ∷ ps) [] = false
has_prefix (p ∷ ps) (c ∷ cs) = p == c && has_prefix ps cs

unfoldable pub contains : List ℕ → List ℕ → Bool
contains part [] = has_prefix part []
contains part (c ∷ cs) = has_prefix part (c ∷ cs) || contains part cs

unfoldable pub concat : String → String → String
concat String.[] t = t
concat (String.◌∷◌ c s) t = String.◌∷◌ c (concat s t)

-- `[String]::join`.
unfoldable pub join : String → List String → String
join sep [] = ""
join sep (x ∷ []) = x
join sep (x ∷ y ∷ xs) = concat x (concat sep (join sep (y ∷ xs)))
