-- ===== src/Queue/Iterator.antt =====
-- The iterator of the priority queue: my_iterator, _It and element::next.
pub mod Laws
use cmdr_cxx.Base.{
  ℕ, ◌+◌, Bool, true, false, not, ◌&&◌, List, [], ◌∷◌, Option, none, some, length, ltb, leb,
  if◌then◌else◌,
}
use cmdr_cxx.Queue.{Element, null, element, dec}

-- An iterator that is not the end: the element, of which it is the top of the tree below, and the
-- place in its list.
abbrev pub It : Type 0 → Type 0
It T = Element T × ℕ

-- What a call of next does: the assert ends the program, or an iterator is given back, where none is
-- `_It{}`, the end.
pub data Moved (T : Type 0) : Type 0 where
  asserted : Moved T
  moved : Option (It T) → Moved T

module _ {T : Type 0} where
  -- A result that is there, or else the other one.
  abbrev or_it : Moved T → Moved T → Moved T
  or_it (moved none) o = o
  or_it (moved (some i)) o = moved (some i)
  or_it asserted o = asserted

  -- `if (!_list.empty()) return {this, 0};`
  abbrev here : Element T → List T → Moved T
  here e [] = moved none
  here e (x ∷ xs) = moved (some (e, 0))

  -- assert(!_list.empty() && _list.size() >= pos) fails; `checked` is false where NDEBUG is defined.
  abbrev pub fails : Bool → List T → ℕ → Bool
  fails checked xs pos = not (ltb 0 (length xs) && leb pos (length xs)) && checked

  -- next(pos) with ReverseComp, where none is the position -1. On an absent child it gives nothing.
  -- `_list.size() - 1` is a std::size_t: on an empty list it wraps.
  unfoldable pub next : Bool → Bool → Element T → Option ℕ → Moved T
  next checked reverse_comp null pos = moved none
  next checked true (element xs v left right) none =
      or_it (next checked true left none)
        (or_it (here (element xs v left right) xs) (next checked true right none))
  next checked true (element xs v left right) (some pos) =
      let rest = next checked true right (some 0) in
      if fails checked xs pos
      then asserted
      else if ltb pos (dec (length xs))
      then moved (some (element xs v left right, pos + 1))
      else rest
  next checked false (element xs v left right) none =
      or_it (next checked false right none)
        (or_it (here (element xs v left right) xs) (next checked false left none))
  next checked false (element xs v left right) (some pos) =
      let rest = next checked false left (some 0) in
      if fails checked xs pos
      then asserted
      else if ltb pos (dec (length xs))
      then moved (some (element xs v left right, pos + 1))
      else rest

  -- operator++ on an iterator that is not the end
  abbrev pub increment : Bool → Bool → It T → Moved T
  increment checked reverse_comp (e, pos) = next checked reverse_comp e (some pos)
