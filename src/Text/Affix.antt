-- ===== src/Text/Affix.antt =====
-- has_prefix, has_suffix, strip, strip_quotes and the trims of
-- libs/cmdr11/include/cmdr11/cmdr_string.hh. A `std::size_t` has 64 bits.
pub mod Laws
pub mod Quotes
pub mod Trim
use mathlib.Core.List.{reverse}
use cmdr_cxx.Base.{
  ℕ, zero, suc, ◌+◌, ◌-◌, ◌%◌, ◌^◌, Bool, true, false, not, ◌&&◌, ◌||◌, List, [], ◌∷◌, ◌++◌, Option,
  none, some, Str, length, take, drop, leb, ltb, ◌==◌, if◌then◌else◌, str_eq, substr, get_elem?,
  is_empty, ◌>>=◌,
}

abbrev pub size_mod : ℕ
size_mod = 2 ^ 64

-- `a - b` in std::size_t
abbrev pub size_sub : ℕ → ℕ → ℕ
size_sub a b = (a + size_mod - b) % size_mod

-- has_prefix(str, prefix)
unfoldable pub has_prefix : Str → Str → Bool
has_prefix str prefix =
    if leb (length prefix) (length str) then str_eq (take (length prefix) str) prefix else false

-- has_suffix(str, suffix)
unfoldable pub has_suffix : Str → Str → Bool
has_suffix str suffix =
    if leb (length suffix) (length str)
    then str_eq (substr str (length str - length suffix) (length suffix)) suffix
    else false

-- strip(str, pre, post)
unfoldable pub strip : Str → Str → Str → Str
strip str pre post =
    let p1 = if has_prefix str pre then length pre else 0 in
    let p2 = if has_suffix str post then size_sub (length str) (length post) else length str in
    if is_empty str then str else substr str p1 (size_sub p2 p1)

abbrev pub is_quote : ℕ → Bool
is_quote c = c == b'"' || c == b'\''

-- `while (str[p1] is a quote) p1++;` from a position on, over the text behind it. It stops at the
-- terminator.
pub lead_quotes : Str → ℕ → ℕ
lead_quotes [] p1 = p1
lead_quotes (c ∷ s) p1 = elim (is_quote c) [ true ↦ lead_quotes s (p1 + 1) | false ↦ p1 ]

-- `while (str[p2] is a quote) p2--;` where `k` is p2 + 1. Below position 0 the access is out of
-- range: `none`.
pub tail_quotes : Str → ℕ → Option ℕ
tail_quotes str zero = none
tail_quotes str (suc p2) = elim (get_elem? str p2) [
  | none ↦ none
  | some c ↦ elim (is_quote c) [ true ↦ tail_quotes str p2 | false ↦ some p2 ]
]

-- strip_quotes(str)
unfoldable pub strip_quotes : Str → Option Str
unfolding lead_quotes tail_quotes
strip_quotes str =
    let p1 = lead_quotes str 0 in
    let found = tail_quotes str (length str) in
    if is_empty str
    then some str
    else found >>= λ p2.
        let end = if ltb (p2 + 1) p1 then p1 - 1 else p2 in some (substr str p1 (end + 1))

-- Erase what stands in front of the first character that is not white space.
pub trim_left : (ℕ → Bool) → Str → Str
trim_left isspace [] = []
trim_left isspace (c ∷ s) = elim (isspace c) [ true ↦ trim_left isspace s | false ↦ c ∷ s ]

-- The same from the other end: `find_if` runs from `rbegin`.
pub trim_right : (ℕ → Bool) → Str → Str
unfolding trim_left
trim_right isspace s = reverse (trim_left isspace (reverse s))

-- trim(s)
pub trim : (ℕ → Bool) → Str → Str
unfolding trim_left trim_right
trim isspace s = trim_left isspace (trim_right isspace s)
