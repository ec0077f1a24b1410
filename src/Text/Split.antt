-- ===== src/Text/Split.antt =====
-- tokenize, split and join of libs/cmdr11/include/cmdr11/cmdr_string.hh.
-- `isspace` of the C library is a parameter.
pub mod Tokens
pub mod Lines
pub mod Pieces
pub mod Join
use cmdr_cxx.Base.{
  ℕ, zero, suc, ◌+◌, ◌-◌, Bool, true, false, List, [], ◌∷◌, ◌++◌, Option, none, some, Str, ltb,
  ◌==◌, if◌then◌else◌, is_empty, length, substr, find_from,
}

-- `if (token.length()) tokens.push_back(token);`
abbrev pub flush : List Str → Str → List Str
flush tokens token = if is_empty token then tokens else tokens ++ token ∷ []

pub tokens_loop : (ℕ → Bool) → Str → List Str → Str → List Str
tokens_loop isspace [] tokens token = flush tokens token
tokens_loop isspace (c ∷ s) tokens token = elim (isspace c) [
  | false ↦ tokens_loop isspace s tokens (token ++ c ∷ [])
  | true ↦ tokens_loop isspace s (flush tokens token) []
]

-- tokenize(s)
pub tokenize : (ℕ → Bool) → Str → List Str
unfolding tokens_loop
tokenize isspace s = tokens_loop isspace s [] []

-- `start` is the text from the iterator `start` up to `it`; `none` is `start == end`.
pub ranges_loop : ℕ → Str → Option Str → List Str → List Str
ranges_loop sep [] none v = v
ranges_loop sep [] (some t) v = v ++ t ∷ []
ranges_loop sep (c ∷ s) none v = elim (c == sep) [
  | false ↦ ranges_loop sep s (some (c ∷ [])) v
  | true ↦ ranges_loop sep s none v
]
ranges_loop sep (c ∷ s) (some t) v = elim (c == sep) [
  | false ↦ ranges_loop sep s (some (t ++ c ∷ [])) v
  | true ↦ ranges_loop sep s none (v ++ t ∷ [])
]

-- tokenize(s, c)
pub tokenize_at : Str → ℕ → List Str
unfolding ranges_loop
tokenize_at s c = ranges_loop c s none []

-- The calls of `std::getline`: `item` is what the current call has read. A call that reads nothing
-- before the end of the stream fails, and its item is not pushed.
pub lines_loop : ℕ → Str → Str → List Str → List Str
lines_loop sep [] item elems = if is_empty item then elems else elems ++ item ∷ []
lines_loop sep (c ∷ s) item elems = elim (c == sep) [
  | false ↦ lines_loop sep s (item ++ c ∷ []) elems
  | true ↦ lines_loop sep s [] (elems ++ item ∷ [])
]

-- split(s, delimiter), by a character
unfoldable pub split_char : Str → ℕ → List Str
unfolding lines_loop
split_char s delimiter = lines_loop delimiter s [] []

-- The loop of the other split, from the position `a`, on fuel; `none` is that it ran out.
pub split_loop : ℕ → Str → Str → ℕ → List Str → Option (List Str)
split_loop zero s delimiter a out = none
split_loop (suc fuel) s delimiter a out = elim (find_from delimiter s a) [
  | none ↦ some (out ++ substr s a (length s - a) ∷ [])
  | some b ↦ split_loop fuel s delimiter (b + length delimiter) (out ++ substr s a (b - a) ∷ [])
]

-- split(s, delimiter, out), by a text
unfoldable pub split : Str → Str → Option (List Str)
unfolding split_loop find_from
split s delimiter =
    if is_empty delimiter then some (s ∷ []) else split_loop (suc (length s)) s delimiter 0 []

-- The loop of join: `i` counts the items written to `ss`.
pub join_loop : Str → List Str → ℕ → Str → Str
join_loop delimiter [] i ss = ss
join_loop delimiter (it ∷ array) i ss =
    join_loop delimiter array (i + 1) ((if ltb 0 i then ss ++ delimiter else ss) ++ it)

abbrev pub shown : ℕ → Str
shown c = if c == 0 then [] else c ∷ []

-- join(array, delimiter, before, after) with characters: '\0' is "nothing".
unfoldable pub join : List Str → ℕ → ℕ → ℕ → Str
unfolding join_loop
join array delimiter before after = join_loop (delimiter ∷ []) array 0 (shown before) ++ shown after

abbrev pub given : Option Str → Str
given none = []
given (some t) = t

-- join with texts: `nullptr` is "nothing".
unfoldable pub join_str : List Str → Str → Option Str → Option Str → Str
unfolding join_loop
join_str array delimiter before after = join_loop delimiter array 0 (given before) ++ given after
