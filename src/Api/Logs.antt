-- ===== src/Api/Logs.antt =====
-- `get_logs` of src/api/handlers.rs: the slice of the log's lines that a query asks for.
pub mod Slices
use tei_manager.Base.{
  ℕ, zero, suc, ◌+◌, ◌-◌, ◌%◌, ◌≤◌, ◌<◌, ◌≡◌, refl, String, Bool, Option, none, some, List, [], ◌∷◌,
  ◌++◌, arith, drop, take, ltb, leb, if◌then◌else◌, length, length-append,
}

-- An `i32`; `negsuc n` is -(n + 1).
pub data ℤ : Type 0 where
  pos : ℕ → ℤ
  negsuc : ℕ → ℤ

abbrev pub i32_half : ℕ
i32_half = 2147483648

abbrev u32_mod : ℕ
u32_mod = 4294967296

-- `total as i32 + s` for a negative `s`, then `max(0)`; both the conversion and the sum wrap.
pub from_end : ℕ → ℕ → ℕ
from_end total n =
    let bits = total % u32_mod in
    if ltb bits i32_half
    then bits - suc n
    else (if leb (u32_mod - bits + suc n) i32_half then 0 else bits - suc n)

pub resolve : ℕ → ℕ → Option ℤ → ℕ
resolve total default none = default
resolve total default (some (pos s)) = if leb s total then s else total
resolve total default (some (negsuc n)) = from_end total n

pub record LogsResponse : Type 0 where
  pub lines : List String
  pub start : ℕ
  pub end : ℕ
  pub total_lines : ℕ

pub select : List String → ℕ → ℕ → List String
select content start end = if ltb start end then take (end - start) (drop start content) else []

-- The answer for a log file that could be read.
pub slice_logs : List String → Option ℤ → Option ℤ → LogsResponse
slice_logs content from to =
    let total = length content in
    let start = resolve total 0 from in
    let end = resolve total total to in
    record { lines = select content start end; start = start; end = end; total_lines = total }
