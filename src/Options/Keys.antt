-- ===== src/Options/Keys.antt =====
-- dotted_key comes to an end.
use cmdr_cxx.Base.{
  ℕ, zero, suc, ◌<◌, List, [], ◌∷◌, Option, none, some, Str, length, get_elem?, get_elem?-lt, ◌≡◌,
  refl, arith, Option-cases, inl, inr,
}
use cmdr_cxx.Parse.{Node, Outcome, done, fault, unfinished}
use cmdr_cxx.Parse.Ends.{Ends, Ends-done, Ends-fault}
use cmdr_cxx.Parse.Scan.Lineage.{OwnersPrecede}
use cmdr_cxx.Options.{titles_to_root, joined, dotted_key}

titles-none :
    (fuel : ℕ) (nodes : List Node) (p : ℕ) (ts : List Str)
    → get_elem? nodes p ≡ none
    → titles_to_root (suc fuel) nodes (some p) ts ≡ fault
unfolding titles_to_root
titles-none fuel nodes p ts e = rw (e, titles_to_root) refl

titles-some :
    (fuel : ℕ) (nodes : List Node) (p : ℕ) (node : Node) (ts : List Str)
    → get_elem? nodes p ≡ some node
    → titles_to_root (suc fuel) nodes (some p) ts
      ≡ titles_to_root fuel nodes node.owner (node.title_long ∷ ts)
unfolding titles_to_root
titles-some fuel nodes p node ts e = rw (e, titles_to_root) refl

module _ (nodes : List Node) (w : OwnersPrecede nodes) where
  titles-Ends :
      (fuel : ℕ) (owner : Option ℕ) (ts : List Str)
      → 0 < fuel
      → ((p : ℕ) → owner ≡ some p → p < length nodes → suc p < fuel)
      → Ends (titles_to_root fuel nodes owner ts)
  unfolding titles_to_root
  titles-Ends zero owner ts f h = absurd (omega (arith, f))
  titles-Ends (suc fuel) none ts f h = Ends-done ts
  titles-Ends (suc fuel) (some p) ts f h = elim (Option-cases (get_elem? nodes p)) [
    | inl e ↦ rw (titles-none fuel nodes p ts e) (Ends-fault _)
    | inr (node, e) ↦
        let c = h p refl (get_elem?-lt nodes p node e) in
        rw (titles-some fuel nodes p node ts e) (
          titles-Ends fuel node.owner (node.title_long ∷ ts) (omega (arith, c))
            (λ q o l. omega (arith, c, w p node q e o)))
  ]

  joined-Ends : (o : Outcome (List Str)) → Ends o → Ends (joined o)
  joined-Ends (done ts) h = Ends-done _
  joined-Ends fault h = Ends-fault _
  joined-Ends unfinished h = absurd (h refl)

  pub dotted_key-Ends :
      (owner : Option ℕ) (title_long : Str) → Ends (dotted_key nodes owner title_long)
  unfolding dotted_key
  dotted_key-Ends owner title_long =
      joined-Ends (titles_to_root (suc (suc (length nodes))) nodes owner (title_long ∷ [])) (
        titles-Ends (suc (suc (length nodes))) owner (title_long ∷ []) (omega arith)
          (λ p e l. omega (arith, l)))
