-- ===== src/Observable/Tests.antt =====
-- Witnesses on the observers 1, 2 and 3, of which 2 is gone.
use cmdr_cxx.Base.{ℕ, Bool, not, ◌==◌, List, [], ◌∷◌, none, Among, ◌≡◌, inl, inr, refl}
use cmdr_cxx.Observable.{remove_observer, adds, removes, Shared, Steps, LockedRun}
use cmdr_cxx.Observable.Interleaved.{two_idle, NotRemoved, copies_lose, locked_keeps}

abbrev third : ℕ
third = 3

abbrev fourth : ℕ
fourth = 4

abbrev alive : ℕ → Bool
alive o = not (o == 2)

copies_lose_example :
    (t : Shared) × Steps alive (two_idle (1 ∷ [])) (adds 3 ∷ adds 4 ∷ []) t
    × (t.copies ≡ none ∷ none ∷ [])
    × NotRemoved 4 (adds 3 ∷ adds 4 ∷ [])
    × Among third t.observers
    × ¬ Among fourth t.observers
copies_lose_example =
    copies_lose alive (1 ∷ []) 4 3 (λ e. cc e) (λ a. elim a [ inl e ↦ cc e | inr b ↦ b ])

abbrev observed : List ℕ → Shared
observed obs = record { observers = obs; copies = [] }

changes : LockedRun alive (observed []) (removes 1 ∷ adds 3 ∷ adds 1 ∷ []) (observed (3 ∷ []))
unfolding remove_observer
changes = LockedRun.then_ (LockedRun.then_ (LockedRun.then_ LockedRun.here refl) refl) refl

locked_keeps_example : Among third (third ∷ [])
locked_keeps_example = locked_keeps 3 changes (inr (inl refl)) ((λ e. cc e), tt)
