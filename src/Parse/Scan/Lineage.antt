-- ===== src/Parse/Scan/Lineage.antt =====
-- The walk up the owners ends where every command was made behind its owner.
use cmdr_cxx.Base.{
  ℕ, zero, suc, Bool, ◌<◌, List, [], ◌∷◌, ◌++◌, Option, none, some, length, get_elem?, get_elem?-lt,
  ◌≡◌, refl, arith, Option-cases, inl, inr,
}
use mathlib.Core.List.{reverse}
use cmdr_cxx.Base.Maps.{Map}
use cmdr_cxx.Parse.{Node, Parser, Outcome, done, fault}
use cmdr_cxx.Parse.Ends.{Ends, Ends-bind, Ends-done}
use cmdr_cxx.Parse.Scan.{from_owner, owner_maps, all_maps, matching_flag_on}

-- An owner stands in front of its commands.
abbrev pub OwnersPrecede : List Node → Type 0
OwnersPrecede nodes =
    (p : ℕ) (node : Node) (q : ℕ) → get_elem? nodes p ≡ some node → node.owner ≡ some q → q < p

module _ (li : Node → Map ℕ) (nodes : List Node) where
  owner_maps-out :
      (fuel p : ℕ) → get_elem? nodes p ≡ none → owner_maps (suc fuel) li nodes p ≡ fault
  unfolding owner_maps
  owner_maps-out fuel p e = rw (e, owner_maps) refl

  owner_maps-up :
      (fuel p : ℕ) (node : Node)
      → get_elem? nodes p ≡ some node
      → owner_maps (suc fuel) li nodes p
        ≡ from_owner (owner_maps fuel li nodes) (li node) node.owner
  unfolding owner_maps
  owner_maps-up fuel p node e = rw (e, owner_maps) refl

  from_owner-Ends :
      (up : ℕ → Outcome (List (Map ℕ))) (m : Map ℕ) (o : Option ℕ)
      → ((q : ℕ) → o ≡ some q → Ends (up q))
      → Ends (from_owner up m o)
  from_owner-Ends up m none h = Ends-done (m ∷ [])
  from_owner-Ends up m (some q) h =
      Ends-bind (up q) (λ ms. done (m ∷ ms)) (h q refl) (λ ms _. Ends-done (m ∷ ms))

  owner_maps-Ends :
      OwnersPrecede nodes
      → (fuel p : ℕ) → 0 < fuel
      → (p < length nodes → p < fuel)
      → Ends (owner_maps fuel li nodes p)
  owner_maps-Ends w zero p f l = absurd (omega (arith, f))
  owner_maps-Ends w (suc fuel) p f l = elim (Option-cases (get_elem? nodes p)) [
    | inl e ↦ λ u. cc (owner_maps-out fuel p e, u)
    | inr (node, e) ↦
        let c = l (get_elem?-lt nodes p node e) in
        rw (owner_maps-up fuel p node e) (
          from_owner-Ends (owner_maps fuel li nodes) (li node) node.owner (λ q o.
            owner_maps-Ends w fuel q (omega (arith, w p node q e o, c))
              (λ _. omega (arith, w p node q e o, c))))
  ]

  all_maps-Ends : OwnersPrecede nodes → (ps : List ℕ) → Ends (all_maps li nodes ps)
  unfolding all_maps
  all_maps-Ends w [] = Ends-done []
  all_maps-Ends w (p ∷ ps) =
      Ends-bind (owner_maps (suc (length nodes)) li nodes p) _
        (owner_maps-Ends w (suc (length nodes)) p (omega arith) (λ l. omega (arith, l)))
        (λ ms _.
          Ends-bind (all_maps li nodes ps) (λ rest. done (ms ++ rest)) (all_maps-Ends w ps)
            (λ rest _. Ends-done (ms ++ rest)))

pub matching_flag_on-Ends :
    {V : Type 0} (longest long special : Bool) (li : Node → Map ℕ) (s : Parser V)
    → OwnersPrecede s.nodes
    → Ends (matching_flag_on longest long special li s)
unfolding matching_flag_on
matching_flag_on-Ends longest long special li s w =
    Ends-bind (all_maps li s.nodes (reverse s.pc.matched_commands)) _
      (all_maps-Ends li s.nodes w (reverse s.pc.matched_commands)) (λ ms _. Ends-done _)
