-- ===== src/Text/Split/Pieces.antt =====
-- `split` by a text, against `join` and `replace_all`.
use cmdr_cxx.Base.{
  ℕ, zero, suc, ◌+◌, ◌-◌, ◌<◌, List, [], ◌∷◌, ◌++◌, append_assoc, append-nil, none, some, Str, ◌≡◌,
  ◌≢◌, refl, sym, ap, ◌∙◌, arith, length, take, drop, length-drop, take_all, drop-add, find_str,
  Option-cases, inl, inr, All,
}
use cmdr_cxx.Text.Find.{find_str_first, find_from_eq}
use cmdr_cxx.Text.Replace.{replace_all}
use cmdr_cxx.Text.Replace.Loop.{replaced, replaced_self, replace_all-replaced, length-drop_lt}
use cmdr_cxx.Text.Split.{split_loop, split, join_str, join_loop}
use cmdr_cxx.Text.Split.Join.{separated, join_loop-cons}

-- The pieces of the text behind the position.
pieces : ℕ → Str → Str → List Str
pieces zero d r = r ∷ []
pieces (suc fuel) d r = elim (find_str d r) [
  | none ↦ r ∷ []
  | some k ↦ take k r ∷ pieces fuel d (drop (k + length d) r)
]

split_loop-pieces :
    (fuel : ℕ) (s d : Str) (a : ℕ) (out : List Str)
    → d ≢ []
    → length (drop a s) < fuel
    → split_loop fuel s d a out ≡ some (out ++ pieces fuel d (drop a s))
unfolding split_loop pieces
split_loop-pieces zero s d a out ne h = absurd (omega arith)
split_loop-pieces (suc fuel) s d a out ne h = elim (Option-cases (find_str d (drop a s))) [
  | inl e ↦ rw (
    find_from_eq d s (drop a s) a none refl e,
    split_loop,
    e,
    pieces,
    take_all (length s - a) (drop a s) (omega (arith, length-drop a s)),
  )
  | inr (k, e) ↦
      let width : a + k - a ≡ k = omega arith in
      let next : a + k + length d ≡ a + (k + length d) = omega arith in
      let shorter : length (drop (a + (k + length d)) s) < fuel =
        rw (drop-add a (k + length d) s) (omega (arith, length-drop_lt d (drop a s) k ne e)) in
      rw (find_from_eq d s (drop a s) a (some k) refl e, split_loop, e, pieces, width, next)
        (split_loop-pieces fuel s d (a + (k + length d)) (out ++ take k (drop a s) ∷ []) ne shorter
          ∙ rw (drop-add a (k + length d) s) (ap some (append_assoc out _ _)))
]

separated-pieces :
    (fuel : ℕ) (d to r : Str) → separated to (pieces fuel d r) ≡ to ++ replaced fuel d to r
unfolding pieces separated replaced
separated-pieces zero d to r = rw append-nil
separated-pieces (suc fuel) d to r = elim (Option-cases (find_str d r)) [
  | inl e ↦ rw (e, pieces, replaced, separated, append-nil)
  | inr (k, e) ↦
      rw (e, pieces, replaced, separated, separated-pieces fuel d to (drop (k + length d) r))
]

join-pieces : (fuel : ℕ) (d to r : Str) → join_loop to (pieces fuel d r) 0 [] ≡ replaced fuel d to r
unfolding pieces replaced separated
join-pieces zero d to r = join_loop-cons to r [] [] ∙ append-nil r
join-pieces (suc fuel) d to r = elim (Option-cases (find_str d r)) [
  | inl e ↦ rw (e, pieces, replaced) (join_loop-cons to r [] [] ∙ append-nil r)
  | inr (k, e) ↦
      rw (e, pieces, replaced)
        (join_loop-cons to (take k r) (pieces fuel d (drop (k + length d) r)) []
          ∙ ap (λ t. take k r ++ t) (separated-pieces fuel d to (drop (k + length d) r)))
]

-- A text is always cut into pieces, and the delimiter between the pieces gives the text back.
pub join-split :
    (s d : Str) → (ps : List Str) × (split s d ≡ some ps) × (join_str ps d none none ≡ s)
unfolding split join_str separated
join-split s [] =
    (s ∷ [], refl, append-nil _ ∙ join_loop-cons [] s [] [] ∙ rw (separated, append-nil))
join-split s (c ∷ d) = (
  pieces (suc (length s)) (c ∷ d) s,
  split_loop-pieces (suc (length s)) s (c ∷ d) 0 [] (λ e. cc) (omega arith),
  rw append-nil
      (join-pieces (suc (length s)) (c ∷ d) (c ∷ d) s ∙ replaced_self (suc (length s)) (c ∷ d) s),
)

pieces_lack :
    (fuel : ℕ) (d r : Str)
    → d ≢ []
    → length r < fuel
    → All (λ p. find_str d p ≡ none) (pieces fuel d r)
unfolding pieces
pieces_lack zero d r ne h = absurd (omega arith)
pieces_lack (suc fuel) d r ne h = elim (Option-cases (find_str d r)) [
  | inl e ↦ rw (e, pieces) (e, tt)
  | inr (k, e) ↦
      rw (e, pieces)
        (
          find_str_first d r k ne e,
          pieces_lack fuel d (drop (k + length d) r) ne (omega (arith, length-drop_lt d r k ne e)),
        )
]

-- No piece holds the delimiter: the cut is made at every occurrence.
pub split_lacks :
    (s d : Str)
    → d ≢ []
    → (ps : List Str) × (split s d ≡ some ps) × All (λ p. find_str d p ≡ none) ps
unfolding split
split_lacks s [] ne = absurd (ne refl)
split_lacks s (c ∷ d) ne = (
  pieces (suc (length s)) (c ∷ d) s,
  split_loop-pieces (suc (length s)) s (c ∷ d) 0 [] ne (omega arith),
  pieces_lack (suc (length s)) (c ∷ d) s ne (omega arith),
)

-- replace_all ends, and its result is the join of the pieces with the new text in place of the old.
pub replace_all-split :
    (str from to : Str)
    → from ≢ []
    → (ps : List Str) × (split str from ≡ some ps)
      × (replace_all str from to ≡ some (join_str ps to none none))
unfolding split join_str
replace_all-split str [] to ne = absurd (ne refl)
replace_all-split str (c ∷ from) to ne = (
  pieces (suc (length str)) (c ∷ from) str,
  split_loop-pieces (suc (length str)) str (c ∷ from) 0 [] ne (omega arith),
  replace_all-replaced str (c ∷ from) to ne
      ∙ ap some (sym (join-pieces (suc (length str)) (c ∷ from) to str) ∙ sym (append-nil _)),
)
