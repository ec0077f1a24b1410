-- ===== src/Observable/Interleaved.antt =====
-- Changes by several threads.
use cmdr_cxx.Base.{
  ℕ, Bool, Bool-cases, List, [], ◌∷◌, none, Among, Among-append_left, Among-append_right, ◌≡◌, ◌≢◌,
  inl, inr, refl, sym, subst,
}
use cmdr_cxx.Observable.{
  is_it, add_observer, Change, adds, removes, changed, Shared, copies_it, swaps, Steps, here, then_,
  LockedRun,
}
use cmdr_cxx.Observable.Laws.{is_it-eq, remove_iff}

-- No thread has a copy.
abbrev pub two_idle : List ℕ → Shared
two_idle obs = record { observers = obs; copies = none ∷ none ∷ [] }

abbrev pub NotRemoved : ℕ → List Change → Type 0
NotRemoved o [] = Unit
NotRemoved o (adds p ∷ cs) = NotRemoved o cs
NotRemoved o (removes p ∷ cs) = (o ≢ p) × NotRemoved o cs

not_last : (o p : ℕ) (obs : List ℕ) → o ≢ p → ¬ Among o obs → ¬ Among o (add_observer p obs)
not_last o p [] n m = λ a. elim a [ inl e ↦ n e | inr b ↦ b ]
not_last o p (x ∷ obs) n m =
    λ a. elim a [ inl e ↦ m (inl e) | inr b ↦ not_last o p obs n (λ c. m (inr c)) b ]

-- With CNS two threads that each add an observer can lose one of them: whatever observers there
-- were, and for two new ones, there is a run in which both are added, none is removed and both
-- threads are done, and in the end the second is among the observers and the first is not.
pub copies_lose :
    (alive : ℕ → Bool) (obs : List ℕ) (o p : ℕ)
    → o ≢ p
    → ¬ Among o obs
    → (t : Shared) × Steps alive (two_idle obs) (adds p ∷ adds o ∷ []) t
      × (t.copies ≡ none ∷ none ∷ [])
      × NotRemoved o (adds p ∷ adds o ∷ [])
      × Among p t.observers
      × ¬ Among o t.observers
copies_lose alive obs o p n m = (
  two_idle (add_observer p obs),
  then_
      (then_ (then_ (then_ here (copies_it 0 (adds o) refl)) (copies_it 1 (adds p) refl))
        (swaps 0 (add_observer o obs) refl))
      (swaps 1 (add_observer p obs) refl),
  refl,
  tt,
  Among-append_right p obs (p ∷ []) (inl refl),
  not_last o p obs n m,
)

-- What one change leaves of the observers that it does not remove.
changed-keeps :
    (alive : ℕ → Bool) (o : ℕ) (c : Change) (obs : List ℕ)
    → NotRemoved o (c ∷ [])
    → Among o obs
    → Among o (changed alive c obs)
changed-keeps alive o (adds p) obs n a = Among-append_left o obs (p ∷ []) a
changed-keeps alive o (removes p) obs (n, _) a = (remove_iff alive p o obs).1 (
  a,
  elim (Bool-cases (is_it alive p o)) [ inl e ↦ absurd (n (is_it-eq alive p o e)) | inr e ↦ e ],
)

NotRemoved-head :
    (o : ℕ) (c : Change) (cs : List Change)
    → NotRemoved o (c ∷ cs)
    → NotRemoved o (c ∷ []) × NotRemoved o cs
NotRemoved-head o (adds p) cs n = (tt, n)
NotRemoved-head o (removes p) cs (n, m) = ((n, tt), m)

-- With AutoLock and without CNS an observer that was added, and not removed by any thread, is there
-- in the end, whatever the order in which the threads made their changes.
pub locked_keeps :
    {alive : ℕ → Bool} {s t : Shared} {cs : List Change} (o : ℕ)
    → LockedRun alive s cs t
    → Among (adds o) cs
    → NotRemoved o cs
    → Among o t.observers
locked_keeps o LockedRun.here a n = absurd a
locked_keeps {alive} {cs = c ∷ ds} o (LockedRun.then_ {t} r e) (inl i) n =
    subst (λ x. Among o x.observers) (sym e)
      (subst (λ x. Among o (changed alive x t.observers)) i
        (Among-append_right o t.observers (o ∷ []) (inl refl)))
locked_keeps {alive} {cs = c ∷ ds} o (LockedRun.then_ {t} r e) (inr i) n =
    let (m, k) = NotRemoved-head o c ds n in
    subst (λ x. Among o x.observers) (sym e)
      (changed-keeps alive o c t.observers m (locked_keeps o r i k))
