-- ===== src/Text/Split/Lines.antt =====
-- `split` by a character against `join`.
use mathlib.Core.List.{append_cancel_right, append-eq-nil_iff}
use cmdr_cxx.Base.{
  ℕ, true, false, List, [], ◌∷◌, ◌++◌, append_assoc, append-nil, Str, ◌==◌, ◌≡◌, ◌≢◌, refl, sym,
  ◌∙◌, arith, All, Lacks, ◌⊎◌, Bool-cases, inl, inr,
}
use cmdr_cxx.Text.Split.{lines_loop, split_char, join, join_loop}
use cmdr_cxx.Text.Split.Join.{separated, ended, ended-append, join_loop-cons, join_loop-ended}

module _ (d : ℕ) where
  -- The lines spell the text, where the last one may lack its delimiter.
  loop-ended :
      (s item : Str) (es : List Str)
      → (ended (d ∷ []) (lines_loop d s item es) ≡ ended (d ∷ []) es ++ (item ++ s))
        ⊎ (ended (d ∷ []) (lines_loop d s item es) ≡ (ended (d ∷ []) es ++ (item ++ s)) ++ d ∷ [])
  unfolding lines_loop ended
  loop-ended [] [] es = inl (sym (append-nil (ended (d ∷ []) es)))
  loop-ended [] (c ∷ item) es =
      inr (ended-append (d ∷ []) es ((c ∷ item) ∷ []) ∙ simp (append-nil, append_assoc))
  loop-ended (c ∷ s) item es = elim (Bool-cases (c == d)) [
    | inl e ↦
        rw (e, lines_loop)
          (let same : c ≡ d = ground arith in
            let move : ended (d ∷ []) (es ++ item ∷ []) ++ s
                ≡ ended (d ∷ []) es ++ (item ++ c ∷ s) =
              rw (same, ended-append (d ∷ []) es (item ∷ []), ended) (simp append_assoc) in
            rw (← move) (loop-ended s [] (es ++ item ∷ [])))
    | inr e ↦
        rw (e, lines_loop) (rw (← append_assoc item (c ∷ []) s) (loop-ended s (item ++ c ∷ []) es))
  ]

  JoinsTo : Str → Str → Type 0
  JoinsTo out s = (out ≡ s) ⊎ (out ++ d ∷ [] ≡ s)

  JoinsTo-of_ended :
      (r : List Str) (s : Str)
      → (ended (d ∷ []) r ≡ s) ⊎ (ended (d ∷ []) r ≡ s ++ d ∷ [])
      → JoinsTo (join_loop (d ∷ []) r 0 []) s
  unfolding JoinsTo
  JoinsTo-of_ended [] s (inl e) = unfold ended join_loop in inl e
  JoinsTo-of_ended [] s (inr e) =
      let q = (append-eq-nil_iff {p = s} {q = d ∷ []}).0 (sym (unfold ended in e)) in
      let no : d ∷ [] ≡ [] = q.1 in cc no
  JoinsTo-of_ended (t ∷ ts) s (inl e) = inr (join_loop-ended (d ∷ []) t ts ∙ e)
  JoinsTo-of_ended (t ∷ ts) s (inr e) =
      inl (append_cancel_right _ s (d ∷ []) (join_loop-ended (d ∷ []) t ts ∙ e))

  -- Joining the lines of a text gives the text back, but for a delimiter at its very end.
  pub join-split_char :
      (s : Str) → (join (split_char s d) d 0 0 ≡ s) ⊎ (join (split_char s d) d 0 0 ++ d ∷ [] ≡ s)
  unfolding join split_char JoinsTo
  join-split_char s =
      rw append-nil (JoinsTo-of_ended (lines_loop d s [] []) s (unfold ended in loop-ended s [] []))

  loop-word :
      (w rest item : Str) (es : List Str)
      → Lacks d w
      → lines_loop d (w ++ rest) item es ≡ lines_loop d rest (item ++ w) es
  unfolding lines_loop
  loop-word [] rest item es h = rw append-nil
  loop-word (c ∷ w) rest item es (ne, h) =
      let e : (c == d) ≡ false = ground arith in
      rw (e, lines_loop) (loop-word w rest (item ++ c ∷ []) es h ∙ simp append_assoc)

  loop-last : (t : Str) (es : List Str) → t ≢ [] → lines_loop d [] t es ≡ es ++ t ∷ []
  unfolding lines_loop
  loop-last [] es h = absurd (h refl)
  loop-last (c ∷ t) es h = refl

  loop-separated :
      (ts : List Str) (t : Str) (es : List Str) (item : Str)
      → All (Lacks d) ts
      → Lacks d t
      → t ≢ []
      → lines_loop d (separated (d ∷ []) (ts ++ t ∷ [])) item es ≡ es ++ item ∷ (ts ++ t ∷ [])
  unfolding lines_loop separated
  loop-separated [] t es item h k ne =
      let e : (d == d) ≡ true = ground arith in
      rw (e, lines_loop)
        (loop-word t [] [] (es ++ item ∷ []) k
          ∙ loop-last t (es ++ item ∷ []) ne
          ∙ simp append_assoc)
  loop-separated (u ∷ ts) t es item (hu, h) k ne =
      let e : (d == d) ≡ true = ground arith in
      rw (e, lines_loop)
        (loop-word u (separated (d ∷ []) (ts ++ t ∷ [])) [] (es ++ item ∷ []) hu
          ∙ loop-separated ts t (es ++ item ∷ []) u h k ne
          ∙ simp append_assoc)

  -- Items without the delimiter, the last of them not empty, are cut apart again.
  pub split_char-join :
      (ts : List Str) (t : Str)
      → All (Lacks d) ts
      → Lacks d t
      → t ≢ []
      → split_char (join (ts ++ t ∷ []) d 0 0) d ≡ ts ++ t ∷ []
  unfolding join split_char separated
  split_char-join [] t h k ne =
      rw (append-nil, join_loop-cons (d ∷ []) t [] [], append-nil)
        ((rw append-nil at (loop-word t [] [] [] k)) ∙ loop-last t [] ne)
  split_char-join (u ∷ ts) t (hu, h) k ne =
      rw (append-nil, join_loop-cons (d ∷ []) u (ts ++ t ∷ []) [])
        (loop-word u (separated (d ∷ []) (ts ++ t ∷ [])) [] [] hu ∙ loop-separated ts t [] u h k ne)
