-- ===== src/Base/Strings.antt =====
-- Text as a list of character codes: comparison, search and parts, as `std::string` has them.
use Prim.Native.Nat.{ℕ, suc, ◌+◌}
use Prim.Native.Char.{code}
use Prim.Native.String.{String}
use mathlib.Core.Path.{◌≡◌, refl}
use mathlib.Core.Logic.{◌↔◌, ◌≢◌}
use mathlib.Core.Bool.{Bool, true, false, ◌&&◌}
use mathlib.Core.List.{List, [], ◌∷◌, ◌++◌}
use mathlib.Core.Option
use mathlib.Core.Option.{Option, none, some}
use native.Mathlib.Omega.{arith}
use cmdr_cxx.Base.Tests.{◌==◌, if◌then◌else◌}
use cmdr_cxx.Base.Lists.{All, take, drop, is_empty}

abbrev pub Str : Type 0
Str = List ℕ

-- The codes of a literal.
abbrev pub codes : String → Str
codes String.[] = []
codes (String.◌∷◌ c s) = code c ∷ codes s

unfoldable pub str_eq : Str → Str → Bool
str_eq [] [] = true
str_eq [] (d ∷ t) = false
str_eq (c ∷ s) [] = false
str_eq (c ∷ s) (d ∷ t) = c == d && str_eq s t

pub str_eq_iff : (s t : Str) → (str_eq s t ≡ true) ↔ (s ≡ t)
unfolding str_eq
str_eq_iff [] [] = (λ _. refl, λ _. refl)
str_eq_iff [] (d ∷ t) = (λ h. cc, λ h. cc)
str_eq_iff (c ∷ s) [] = (λ h. cc, λ h. cc)
str_eq_iff (c ∷ s) (d ∷ t) =
    (λ h. ground (arith, str_eq_iff s t), λ h. ground (arith, str_eq_iff s t))

pub str_eq_refl : (s : Str) → str_eq s s ≡ true
str_eq_refl s = (str_eq_iff s s).1 refl

-- No character of the text is `c`.
abbrev pub Lacks : ℕ → Str → Type 0
Lacks c = All (λ d. d ≢ c)

-- `std::string::substr`, for a position inside the text.
abbrev pub substr : Str → ℕ → ℕ → Str
substr s pos n = take n (drop pos s)

-- The text begins with the pattern.
unfoldable pub is_prefix : Str → Str → Bool
is_prefix [] s = true
is_prefix (p ∷ ps) [] = false
is_prefix (p ∷ ps) (c ∷ s) = p == c && is_prefix ps s

pub is_prefix-append : (p r : Str) → is_prefix p (p ++ r) ≡ true
unfolding is_prefix
is_prefix-append [] r = refl
is_prefix-append (c ∷ p) r = ground (arith, is_prefix-append p r)

pub is_prefix_sound : (p s : Str) → is_prefix p s ≡ true → (r : Str) × (s ≡ p ++ r)
unfolding is_prefix
is_prefix_sound [] s h = (s, refl)
is_prefix_sound (p ∷ ps) [] h = cc
is_prefix_sound (p ∷ ps) (c ∷ s) h =
    let q : (p ≡ c) × (is_prefix ps s ≡ true) = ground arith in
    let (r, e) = is_prefix_sound ps s q.1 in (r, cc (q.0, e))

-- `std::string::find`: the first position where the pattern stands.
unfoldable pub find_str : Str → Str → Option ℕ
find_str p [] = if is_empty p then some 0 else none
find_str p (c ∷ s) = if is_prefix p (c ∷ s) then some 0 else Option.map suc (find_str p s)

-- The same from a position on.
unfoldable pub find_from : Str → Str → ℕ → Option ℕ
find_from p s a = Option.map (λ k. a + k) (find_str p (drop a s))
