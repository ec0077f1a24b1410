-- ===== src/Text/Affix/Trim.antt =====
-- What `trim` leaves.
use mathlib.Core.List.{reverse, reverse-append, reverse-reverse}
use cmdr_cxx.Base.{
  ℕ, Bool, true, false, [], ◌∷◌, ◌++◌, append_assoc, Str, ◌≡◌, refl, sym, ap, ◌∙◌, All, All-append,
  Bool-cases, inl, inr,
}
use cmdr_cxx.Text.Affix.{trim_left, trim}

module _ (isspace : ℕ → Bool) where
  abbrev pub IsSpace : Str → Type 0
  IsSpace = All (λ c. isspace c ≡ true)

  -- The text does not begin with white space.
  abbrev pub IsFlush : Str → Type 0
  IsFlush [] = Unit
  IsFlush (c ∷ s) = isspace c ≡ false

  trim_left_sound :
      (s : Str)
      → (l : Str) × (s ≡ l ++ trim_left isspace s) × IsSpace l × IsFlush (trim_left isspace s)
  unfolding trim_left
  trim_left_sound [] = ([], refl, tt, tt)
  trim_left_sound (c ∷ s) = elim (Bool-cases (isspace c)) [
    | inl e ↦
        let (l, same, white, flush) = trim_left_sound s in
        rw (e, trim_left) (c ∷ l, ap (◌∷◌ c) same, (e, white), flush)
    | inr e ↦ rw (e, trim_left) ([], refl, tt, e)
  ]

  IsSpace-reverse : (s : Str) → IsSpace s → IsSpace (reverse s)
  IsSpace-reverse [] h = tt
  IsSpace-reverse (c ∷ s) (h, k) =
      rw (reverse-append (c ∷ []) s)
        (All-append (λ c. isspace c ≡ true) (reverse s) (c ∷ []) (IsSpace-reverse s k) (h, tt))

  IsFlush-append : (s t : Str) → IsFlush (s ++ t) → IsFlush s
  IsFlush-append [] t h = tt
  IsFlush-append (c ∷ s) t h = h

  -- What trim cuts off at either end is white space, and what it leaves neither begins nor ends
  -- with white space.
  pub trim_sound :
      (s : Str)
      → (l r : Str) × (s ≡ l ++ (trim isspace s ++ r))
        × IsSpace l
        × IsSpace r
        × IsFlush (trim isspace s)
        × IsFlush (reverse (trim isspace s))
  unfolding trim
  trim_sound s =
      let (r, e, white, flush) = trim_left_sound (reverse s) in
      let u = reverse (trim_left isspace (reverse s)) in
      let back : s ≡ u ++ reverse r =
        sym (reverse-reverse s) ∙ ap reverse e ∙ reverse-append r (trim_left isspace (reverse s)) in
      let (l, e', white', flush') = trim_left_sound u in
      let ends : IsFlush (reverse (trim_left isspace u) ++ reverse l) =
        rw (← reverse-append l (trim_left isspace u), ← e', reverse-reverse) flush in
      (
        l,
        reverse r,
        back ∙ ap (λ t. t ++ reverse r) e' ∙ append_assoc l (trim_left isspace u) (reverse r),
        white',
        IsSpace-reverse r white,
        flush',
        IsFlush-append (reverse (trim_left isspace u)) (reverse l) ends,
      )
