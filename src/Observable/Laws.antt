-- ===== src/Observable/Laws.antt =====
-- What emit and remove_observer promise.
use cmdr_cxx.Base.{
  ℕ, Bool, true, false, ◌&&◌, ◌==◌, ==_iff, ==_refl, Bool-cases, List, [], ◌∷◌, Among,
  if◌then◌else◌, ◌≡◌, ◌≢◌, ◌↔◌, inl, inr, refl, sym, subst, ap, ◌∙◌,
}
use cmdr_cxx.Observable.{is_it, remove_observer, emit, emit_callbacks, emit_signal}

module _ (alive : ℕ → Bool) where
  emit-cons :
      (x : ℕ) (obs : List ℕ) (b : Bool)
      → alive x ≡ b
      → emit alive (x ∷ obs) ≡ (if b then x ∷ emit alive obs else emit alive obs)
  unfolding emit
  emit-cons x obs b e = rw e refl

  remove-cons :
      (o x : ℕ) (obs : List ℕ) (b : Bool)
      → is_it alive o x ≡ b
      → remove_observer alive o (x ∷ obs)
        ≡ (if b then remove_observer alive o obs else x ∷ remove_observer alive o obs)
  unfolding remove_observer
  remove-cons o x obs b e =
      ap (λ y. if y then remove_observer alive o obs else x ∷ remove_observer alive o obs) e

  -- An event is observed by those observers that were added and are alive.
  pub emit_iff :
      (o : ℕ) (obs : List ℕ) → Among o (emit alive obs) ↔ (Among o obs × (alive o ≡ true))
  unfolding emit
  emit_iff o [] = (λ h. absurd h, λ h. absurd h.0)
  emit_iff o (x ∷ obs) =
      let (f, g) = emit_iff o obs in
      elim (Bool-cases (alive x)) [
        | inl e ↦ rw (emit-cons x obs true e) (
          λ h. elim h [
            | inl i ↦ (inl i, subst (λ y. alive y ≡ true) (sym i) e)
            | inr j ↦ (inr (f j).0, (f j).1)
          ],
          λ h. elim h.0 [ inl i ↦ inl i | inr j ↦ inr (g (j, h.1)) ],
        )
        | inr e ↦ rw (emit-cons x obs false e) (
          λ h. (inr (f h).0, (f h).1),
          λ h. elim h.0 [ inl i ↦ cc (e, h.1, i) | inr j ↦ g (j, h.1) ],
        )
      ]

  is_it_self : (o : ℕ) → alive o ≡ true → is_it alive o o ≡ true
  is_it_self o e = rw (e, ==_refl o) refl

  pub is_it-eq : (o p : ℕ) → is_it alive o p ≡ true → p ≡ o
  is_it-eq o p e = elim (Bool-cases (alive p)) [
    | inl a ↦ (==_iff p o).0 (subst (λ b. (b && p == o) ≡ true) a e)
    | inr a ↦ cc (subst (λ b. (b && p == o) ≡ true) a e)
  ]

  -- What remove_observer leaves.
  pub remove_iff :
      (o p : ℕ) (obs : List ℕ)
      → Among p (remove_observer alive o obs) ↔ (Among p obs × (is_it alive o p ≡ false))
  unfolding remove_observer
  remove_iff o p [] = (λ h. absurd h, λ h. absurd h.0)
  remove_iff o p (x ∷ obs) =
      let (f, g) = remove_iff o p obs in
      elim (Bool-cases (is_it alive o x)) [
        | inl e ↦ rw (remove-cons o x obs true e) (
          λ h. (inr (f h).0, (f h).1),
          λ h. elim h.0 [
            | inl i ↦ cc (subst (λ y. is_it alive o y ≡ true) (sym i) e, h.1)
            | inr j ↦ g (j, h.1)
          ],
        )
        | inr e ↦ rw (remove-cons o x obs false e) (
          λ h. elim h [
            | inl i ↦ (inl i, subst (λ y. is_it alive o y ≡ false) (sym i) e)
            | inr j ↦ (inr (f j).0, (f j).1)
          ],
          λ h. elim h.0 [ inl i ↦ inl i | inr j ↦ inr (g (j, h.1)) ],
        )
      ]

  -- After remove_observer the observer does not observe an event, however often it was added, and
  -- every other observes it as before.
  pub emit-remove_observer :
      (o p : ℕ) (obs : List ℕ)
      → Among p (emit alive (remove_observer alive o obs)) ↔ (Among p (emit alive obs) × (p ≢ o))
  emit-remove_observer o p obs =
      let (f, g) = emit_iff p (remove_observer alive o obs) in
      let (h, k) = emit_iff p obs in
      let (l, m) = remove_iff o p obs in
      (
        λ a.
            let (b, c) = f a in
            let (d, e) = l b in
            (
              k (d, c),
              λ q. cc (e, is_it_self o (subst (λ y. alive y ≡ true) q c), ap (is_it alive o) q),
            ),
        λ a. let (b, c) = h a.0 in g (m (b, not_it o p a.1), c),
      )
    where
      not_it : (q r : ℕ) → r ≢ q → is_it alive q r ≡ false
      not_it q r n = elim (Bool-cases (is_it alive q r)) [
        | inl e ↦ absurd (n (is_it-eq q r e))
        | inr e ↦ e
      ]

-- A signal whose callbacks leave the subjects as they got them calls them as observable_bindable
-- does.
abbrev pub Leave : {W S : Type 0} → S → List (S → W → W × S) → Type 0
Leave s [] = Unit
Leave {W} s (f ∷ fns) = ((w : W) → (f s w).1 ≡ s) × Leave s fns

abbrev pub callbacks : {W S : Type 0} → List (S → W → W × S) → List (S → W → W)
callbacks [] = []
callbacks (f ∷ fns) = (λ s w. (f s w).0) ∷ callbacks fns

pub emit_signal-emit_callbacks :
    {W S : Type 0} (fns : List (S → W → W × S)) (s : S) (w : W)
    → Leave s fns
    → emit_signal fns s w ≡ (emit_callbacks (callbacks fns) s w, s)
unfolding emit_signal emit_callbacks
emit_signal-emit_callbacks [] s w h = refl
emit_signal-emit_callbacks (f ∷ fns) s w (k, h) =
    ap (λ x. emit_signal fns x (f s w).0) (k w) ∙ emit_signal-emit_callbacks fns s (f s w).0 h
