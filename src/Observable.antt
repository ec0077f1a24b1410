-- ===== src/Observable.antt =====
-- observable, registerer and observable_bindable of libs/cmdr11/include/cmdr11/cmdr_common.hh. An
-- observer is a number, the pointer to it; `alive` tells which of the weak pointers lock() finds.
pub mod Laws
pub mod Interleaved
mod Tests
use cmdr_cxx.Base.{
  ℕ, zero, suc, Bool, true, false, not, ◌&&◌, List, [], ◌∷◌, ◌++◌, Option, none, some, get_elem?,
  set, ◌==◌, if◌then◌else◌, ◌≡◌,
}

-- add_observer(o) on the list of observers.
abbrev pub add_observer : ℕ → List ℕ → List ℕ
add_observer o obs = obs ++ o ∷ []

-- The predicate of the std::remove_if in remove_observer(o).
abbrev pub is_it : (ℕ → Bool) → ℕ → ℕ → Bool
is_it alive o rhs = alive rhs && rhs == o

-- remove_observer(o)
unfoldable pub remove_observer : (ℕ → Bool) → ℕ → List ℕ → List ℕ
remove_observer alive o [] = []
remove_observer alive o (x ∷ obs) =
    let rest = remove_observer alive o obs in if is_it alive o x then rest else x ∷ rest

-- emit(event): the observers that observe it, in their order.
pub emit : (ℕ → Bool) → List ℕ → List ℕ
emit alive [] = []
emit alive (x ∷ obs) = let rest = emit alive obs in if alive x then x ∷ rest else rest

-- registerer: the constructor and the destructor.
abbrev pub registered : ℕ → List ℕ → List ℕ
registered o obs = add_observer o obs

abbrev pub unregistered : (ℕ → Bool) → ℕ → List ℕ → List ℕ
unregistered alive o obs = remove_observer alive o obs

-- The changes that threads make.
pub data Change : Type 0 where
  adds : ℕ → Change
  removes : ℕ → Change

abbrev pub changed : (ℕ → Bool) → Change → List ℕ → List ℕ
changed alive (adds o) obs = add_observer o obs
changed alive (removes o) obs = remove_observer alive o obs

-- The observers, and the copy that each thread works on, if it is at work.
pub record Shared : Type 0 where
  pub observers : List ℕ
  pub copies : List (Option (List ℕ))

-- With AutoLock and CNS a change is two steps: `auto copy = _observers` and the work on the copy in
-- front of the lock, and the swap behind it. With AutoLock alone it is one step. A step comes with
-- the change that it begins, if it begins one.
pub data Step (alive : ℕ → Bool) (s : Shared) : List Change → Shared → Type 0 where
  copies_it :
      (i : ℕ) (c : Change)
      → get_elem? s.copies i ≡ some none
      → Step alive s
          (c ∷ [])
          (record s { copies = set s.copies i (some (changed alive c s.observers)) })
  swaps :
      (i : ℕ) (copy : List ℕ)
      → get_elem? s.copies i ≡ some (some copy)
      → Step alive s [] (record { observers = copy; copies = set s.copies i none })

-- The runs with CNS, with the changes that were begun, the last one first.
pub data Steps (alive : ℕ → Bool) (s : Shared) : List Change → Shared → Type 0 where
  here : Steps alive s [] s
  then_ :
      {cs ds : List Change} {t u : Shared}
      → Steps alive s cs t
      → Step alive t ds u
      → Steps alive s (ds ++ cs) u

-- The runs of changes under the lock, with the changes, the last one first.
pub data LockedRun (alive : ℕ → Bool) (s : Shared) : List Change → Shared → Type 0 where
  here : LockedRun alive s [] s
  then_ :
      {cs : List Change} {t u : Shared} {c : Change}
      → LockedRun alive s cs t
      → u ≡ record t { observers = changed alive c t.observers }
      → LockedRun alive s (c ∷ cs) u

-- observable_bindable: add_callback(f), and emit(event) with the callbacks as functions on a world.
abbrev pub add_callback : {W S : Type 0} → (S → W → W) → List (S → W → W) → List (S → W → W)
add_callback f fns = fns ++ f ∷ []

pub emit_callbacks : {W S : Type 0} → List (S → W → W) → S → W → W
emit_callbacks [] event w = w
emit_callbacks (f ∷ fns) event w = emit_callbacks fns event (f event w)

-- signal::emit: a callback takes the subjects by an rvalue reference of std::move, and leaves
-- something in them.
pub emit_signal : {W S : Type 0} → List (S → W → W × S) → S → W → W × S
emit_signal [] subjects w = (w, subjects)
emit_signal (f ∷ fns) subjects w = let (w', left) = f subjects w in emit_signal fns left w'
