-- ===== src/Text/Decimal.antt =====
-- conv::itoa of libs/cmdr11/include/cmdr11/cmdr_string.hh: decimal digits written into a buffer
-- from its end. `unsigned` and `int` have 32 bits.
pub mod Loops
pub mod RoundTrip
use cmdr_cxx.Base.{
  ℕ, zero, suc, ◌+◌, ◌-◌, ◌*◌, ◌/◌, ◌%◌, ◌^◌, List, [], ◌∷◌, ◌++◌, Option, none, some, Str, codes,
  length, take, replicate, set, get_elem?, leb, ltb, ◌==◌, if◌then◌else◌, true, false, ◌>>=◌, ℤ,
  pos, negsuc, is_negative,
}

abbrev pub uint_mod : ℕ
uint_mod = 2 ^ 32

abbrev pub digit_pairs : Str
digit_pairs =
    codes
      "00010203040506070809101112131415161718192021222324252627282930313233343536373839404142434445464748495051525354555657585960616263646566676869707172737475767778798081828384858687888990919293949596979899"

-- A read of digit_pairs, whose terminator stands at 200.
abbrev pub pair_char : ℕ → ℕ
pair_char i = elim (get_elem? digit_pairs i) [ none ↦ 0 | some c ↦ c ]

-- The number of digits, by comparisons.
abbrev pub size_of : ℕ → ℕ
size_of val =
    if leb 10000 val
    then (if leb 10000000 val
        then (if leb 1000000000 val then 10 else if leb 100000000 val then 9 else 8)
        else if leb 1000000 val
        then 7
        else if leb 100000 val
        then 6
        else 5)
    else if leb 100 val
    then (if leb 1000 val then 4 else 3)
    else if leb 10 val
    then 2
    else 1

-- `s.resize(size)`
abbrev pub resize : Str → ℕ → Str
resize s size = take size s ++ replicate (size - length s) 0

-- `while (val >= 100)`. The pointer `c` stands at the index k - 1; each round writes two characters
-- and goes two down. A write in front of the buffer is a fault: `none`.
pub pairs_loop : ℕ → ℕ → Str → Option (ℕ × ℕ × Str)
pairs_loop zero val buf = if leb 100 val then none else some (val, zero, buf)
pairs_loop (suc zero) val buf = if leb 100 val then none else some (val, suc zero, buf)
pairs_loop (suc (suc k)) val buf = elim (leb 100 val) [
  | true ↦
      let pos = val % 100 in
      pairs_loop k (val / 100)
        (set (set buf k (pair_char (2 * pos))) (suc k) (pair_char (2 * pos + 1)))
  | false ↦ some (val, suc (suc k), buf)
]

-- `while (val > 0)`, one character a round.
pub singles_loop : ℕ → ℕ → Str → Option Str
singles_loop zero val buf = if ltb 0 val then none else some buf
singles_loop (suc k) val buf = elim (ltb 0 val) [
  | true ↦ singles_loop k (val / 10) (set buf k (b'0' + val % 10))
  | false ↦ some buf
]

-- Both loops, over a buffer of k characters.
pub write_digits : ℕ → ℕ → Str → Option Str
unfolding pairs_loop singles_loop
write_digits k val buf = do r ← pairs_loop k val buf; singles_loop r.1 r.0 r.2

-- itoa(unsigned, s)
unfoldable pub itoa_unsigned : ℕ → Str → Option Str
unfolding write_digits
itoa_unsigned val s =
    let size = size_of val in
    let out = write_digits size val (resize s size) in if val == 0 then some (b'0' ∷ []) else out

-- (n ^ sign) - sign as an unsigned: for a negative n, n ^ -1 is -(n + 1).
pub magnitude : ℤ → ℕ
magnitude (pos n) = n
magnitude (negsuc m) = (m + 1) % uint_mod

-- itoa(int, s): `size -= sign` makes room for the sign.
unfoldable pub itoa : ℤ → Str → Option Str
unfolding write_digits magnitude
itoa n s =
    let val = magnitude n in
    let sign = if is_negative n then 1 else 0 in
    let size = size_of val + sign in
    let buf = resize s size in
    let out = write_digits size val (if is_negative n then set buf 0 b'-' else buf) in
    if val == 0 then some (b'0' ∷ []) else out
