-- ===== src/Text/Split/Join.antt =====
-- `join` without its counter: the items, with the delimiter in front of each but the first.
use cmdr_cxx.Base.{
  ℕ, ◌+◌, ◌<◌, List, [], ◌∷◌, ◌++◌, append_assoc, append-nil, Str, ◌≡◌, refl, sym, ap, ◌∙◌, arith,
  ltb, true,
}
use cmdr_cxx.Text.Split.{join_loop}

-- Each item behind a delimiter.
unfoldable pub separated : Str → List Str → Str
separated d [] = []
separated d (t ∷ ts) = d ++ (t ++ separated d ts)

-- Each item in front of a delimiter.
unfoldable pub ended : Str → List Str → Str
ended d [] = []
ended d (t ∷ ts) = t ++ (d ++ ended d ts)

join_loop-separated :
    (d : Str) (ts : List Str) (i : ℕ) (ss : Str)
    → 0 < i
    → join_loop d ts i ss ≡ ss ++ separated d ts
unfolding join_loop separated
join_loop-separated d [] i ss h = sym (append-nil ss)
join_loop-separated d (t ∷ ts) i ss h =
    let e : ltb 0 i ≡ true = ground arith in
    rw e (join_loop-separated d ts (i + 1) ((ss ++ d) ++ t) (omega arith) ∙ simp append_assoc)

pub join_loop-cons :
    (d : Str) (t : Str) (ts : List Str) (ss : Str)
    → join_loop d (t ∷ ts) 0 ss ≡ ss ++ (t ++ separated d ts)
unfolding join_loop
join_loop-cons d t ts ss =
    join_loop-separated d ts (0 + 1) (ss ++ t) (omega arith) ∙ append_assoc ss t (separated d ts)

pub ended-append : (d : Str) (xs ys : List Str) → ended d (xs ++ ys) ≡ ended d xs ++ ended d ys
unfolding ended
ended-append d [] ys = refl
ended-append d (x ∷ xs) ys = simp (ended-append d xs ys, append_assoc)

separated-ended :
    (d : Str) (ts : List Str) (t : Str) → (t ++ separated d ts) ++ d ≡ ended d (t ∷ ts)
unfolding separated ended
separated-ended d [] t = simp append-nil
separated-ended d (u ∷ ts) t =
    (append_assoc t (d ++ (u ++ separated d ts)) d
      ∙ ap (λ w. t ++ w) (append_assoc d (u ++ separated d ts) d))
    ∙ ap (λ w. t ++ (d ++ w)) (separated-ended d ts u)

-- A join of at least one item, and one more delimiter.
pub join_loop-ended :
    (d : Str) (t : Str) (ts : List Str) → join_loop d (t ∷ ts) 0 [] ++ d ≡ ended d (t ∷ ts)
join_loop-ended d t ts = rw (join_loop-cons d t ts []) (separated-ended d ts t)
