-- ===== src/Text/Replace.antt =====
-- replace and replace_all of libs/cmdr11/include/cmdr11/cmdr_string.hh.
pub mod Loop
use cmdr_cxx.Base.{
  ℕ, zero, suc, ◌+◌, Bool, true, false, ◌++◌, Option, none, some, Str, length, take, drop, is_empty,
  if◌then◌else◌, find_from, find_str,
}

-- `std::string::replace`
abbrev pub splice : Str → ℕ → ℕ → Str → Str
splice str pos n to = take pos str ++ (to ++ drop (pos + n) str)

-- replace(str, from, to): the new text, and whether `from` was there.
pub replace : Str → Str → Str → Str × Bool
unfolding find_str
replace str from to = elim (find_str from str) [
  | none ↦ (str, false)
  | some start_pos ↦ (splice str start_pos (length from) to, true)
]

-- The loop of replace_all, on fuel; `none` is that it ran out.
pub replace_loop : ℕ → Str → Str → Str → ℕ → Option Str
replace_loop zero str from to start_pos = none
replace_loop (suc fuel) str from to start_pos = elim (find_from from str start_pos) [
  | none ↦ some str
  | some p ↦ replace_loop fuel (splice str p (length from) to) from to (p + length to)
]

-- replace_all(str, from, to)
pub replace_all : Str → Str → Str → Option Str
unfolding replace_loop find_from
replace_all str from to =
    if is_empty from then some str else replace_loop (suc (length str)) str from to 0
