-- ===== src/Base/Maps.antt =====
-- `std::unordered_map` with text keys, as an association list. The order of the list stands for
-- the order of iteration, which the library leaves open.
use mathlib.Core.Path.{◌≡◌, refl}
use mathlib.Core.List.{List, [], ◌∷◌}
use mathlib.Core.Option.{Option, none, some}
use native.Mathlib.Omega.{arith}
use cmdr_cxx.Base.Tests.{if◌then◌else◌}
use cmdr_cxx.Base.Strings.{Str, str_eq, str_eq_iff}

abbrev pub Map {ℓ} : Type ℓ → Type ℓ
Map V = List (Str × V)

module _ {ℓ} {V : Type ℓ} where
  unfoldable pub find : Str → Map V → Option V
  find k [] = none
  find k ((j, v) ∷ m) = if str_eq j k then some v else find k m

  -- `insert` and `emplace`: a key that is there keeps its value.
  unfoldable pub insert : Str → V → Map V → Map V
  insert k v [] = (k, v) ∷ []
  insert k v ((j, w) ∷ m) = if str_eq j k then (j, w) ∷ m else (j, w) ∷ insert k v m

  -- `m[k] = v`.
  unfoldable pub assign : Str → V → Map V → Map V
  assign k v [] = (k, v) ∷ []
  assign k v ((j, w) ∷ m) = if str_eq j k then (j, v) ∷ m else (j, w) ∷ assign k v m

module _ {ℓ} {V : Type ℓ} where
  abbrev pub or_else : Option V → V → V
  or_else none v = v
  or_else (some w) v = w

  pub find-insert :
      (k j : Str) (v : V) (m : Map V)
      → find j (insert k v m) ≡ (if str_eq k j then some (or_else (find k m) v) else find j m)
  unfolding find insert
  find-insert k j v [] = refl
  find-insert k j v ((i, w) ∷ m) =
      ground (arith, str_eq_iff k j, str_eq_iff i k, str_eq_iff i j, find-insert k j v m)

  pub find-assign :
      (k j : Str) (v : V) (m : Map V)
      → find j (assign k v m) ≡ (if str_eq k j then some v else find j m)
  unfolding find assign
  find-assign k j v [] = refl
  find-assign k j v ((i, w) ∷ m) =
      ground (arith, str_eq_iff k j, str_eq_iff i k, str_eq_iff i j, find-assign k j v m)
