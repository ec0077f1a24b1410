-- ===== src/SmallString.antt =====
-- small_string_preallocated<Size, char> of libs/cmdr11/include/cmdr11/cmdr_small_string.hh: the
-- characters in a buffer of Size chars, whose last one keeps how many are free. A char is a signed
-- byte, and stands in the model as a number below 256.
pub mod Sizes
pub mod Contents
pub mod Stale
mod Tests
use cmdr_cxx.Base.{
  ℕ, zero, suc, ◌+◌, ◌-◌, ◌%◌, ◌^◌, Bool, true, false, not, ◌&&◌, List, [], ◌∷◌, ◌++◌, Option, none,
  some, Str, length, get_elem?, set, take, drop, replicate, ltb, leb, ◌==◌, if◌then◌else◌,
}

-- _buffer. `size` stands for Size, which is positive.
pub record SmallString : Type 0 where
  pub size_ : ℕ
  pub buffer : Str

-- The char at a place of the buffer, which the code reads inside of it.
abbrev pub char_at : Str → ℕ → ℕ
char_at buf i = elim (get_elem? buf i) as (λ o. ℕ) [ none ↦ 0 | some c ↦ c ]

-- capacity()
abbrev pub capacity : SmallString → ℕ
capacity s = s.size_ - 1

-- `capacity() - _buffer[capacity()]` in size_type, where the char is taken as an int.
unfoldable pub minus_char : ℕ → ℕ → ℕ
minus_char n c = if ltb c 128 then (n + 2 ^ 64 - c) % 2 ^ 64 else (n + (256 - c)) % 2 ^ 64

-- size()
unfoldable pub size : SmallString → ℕ
unfolding minus_char
size s = minus_char (capacity s) (char_at s.buffer (capacity s))

-- `_buffer[capacity()] = Size - 1 - size`: in size_type, then in char.
unfoldable pub set_size : ℕ → SmallString → SmallString
set_size n s = record s {
  buffer = set s.buffer (capacity s) ((s.size_ - 1 + 2 ^ 64 - n) % 2 ^ 64 % 256);
}

-- std::memcpy(_buffer, str, n)
abbrev pub copied : Str → ℕ → SmallString → SmallString
copied str n s = record s { buffer = take n str ++ drop n s.buffer }

-- `_buffer{}`, and set_size(0) of the constructor.
unfoldable pub empty_string : ℕ → SmallString
unfolding set_size
empty_string size = set_size 0 (record { size_ = size; buffer = replicate size 0 })

-- operator=(const T (&str)[N]), where str is without the 0 at its end, so that N is one more.
unfoldable pub assign_literal : Str → SmallString → SmallString
unfolding set_size
assign_literal str s =
    let n = if leb s.size_ (length str + 1) then s.size_ - 1 else length str in
    set_size n (copied str n s)

-- The constructor of a literal, on `_buffer{}`.
unfoldable pub from_literal : ℕ → Str → SmallString
unfolding assign_literal
from_literal size str = assign_literal str (record { size_ = size; buffer = replicate size 0 })

-- operator=(const std::basic_string &str). The 0 behind the text is copied where size is one more
-- than its length.
unfoldable pub assign_string : Str → SmallString → SmallString
unfolding set_size
assign_string str s =
    let n = if leb s.size_ (length str) then s.size_ else length str in
    set_size n (copied (str ++ 0 ∷ []) n s)

-- The constructor of a std::basic_string, on `_buffer{}`.
unfoldable pub from_string : ℕ → Str → SmallString
unfolding assign_string
from_string size str = assign_string str (record { size_ = size; buffer = replicate size 0 })

-- operator=(const small_string_preallocated<N> &rhs) for another string, and the one that moves.
unfoldable pub assign_small : SmallString → SmallString → SmallString
unfolding set_size
assign_small rhs s =
    let n = if leb s.size_ rhs.size_ then s.size_ else rhs.size_ in
    set_size n (copied rhs.buffer n s)

-- The constructor of a small string with another Size.
unfoldable pub from_small : ℕ → SmallString → SmallString
unfolding assign_small
from_small size rhs = assign_small rhs (record { size_ = size; buffer = replicate size 0 })

-- append(value)
unfoldable pub append : ℕ → SmallString → SmallString
unfolding size set_size
append value s =
    if ltb (size s) (capacity s)
    then set_size (size s + 1) (record s { buffer = set s.buffer (size s) value })
    else s

-- The loops of the three `operator+=`.
unfoldable pub append_all : Str → SmallString → SmallString
unfolding append
append_all [] s = s
append_all (c ∷ cs) s = append_all cs (append c s)

-- The characters from begin() to end().
abbrev pub chars : SmallString → Str
chars s = take (size s) s.buffer

-- compare(lhs, rhs) on the two buffers. What it gives behind the end of a buffer is not defined;
-- here it is false.
unfoldable pub compare_chars : Str → Str → Bool
compare_chars [] ys = false
compare_chars (a ∷ xs) [] = false
compare_chars (a ∷ xs) (b ∷ ys) =
    let rest = compare_chars xs ys in
    if not (a == 0) && not (b == 0) then a == b && rest else (a == 0) && (b == 0)

-- operator==
abbrev pub same_string : SmallString → SmallString → Bool
same_string a b = compare_chars a.buffer b.buffer
