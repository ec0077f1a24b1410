-- ===== src/Store/Dictionary.antt =====
-- Many sets at the root of a new tree, told as a dictionary.
use cmdr_cxx.Base.{
  ℕ, zero, suc, List, [], ◌∷◌, Option, none, some, Str, ◌≡◌, refl, ap, ◌∙◌, arith, length,
  if◌then◌else◌, ◌>>=◌, str_eq,
}
use cmdr_cxx.Base.Maps.{find}
use cmdr_cxx.Store.{Heap, fresh, child, indexed, set_raw, get_raw}
use cmdr_cxx.Store.Shape.{IsTree}
use cmdr_cxx.Store.Tree.{cong_if}
use cmdr_cxx.Store.Laws.{IsStore, set_raw-Sets, get_raw-none, get_raw-Sets}

-- The heap of a tree that was just made: the root alone.
abbrev pub new_store : {V : Type 0} → V → Heap V
new_store blank = fresh blank ∷ []

abbrev root_addr : ℕ → List Str
root_addr n = []

new_child : {V : Type 0} (blank : V) (n : ℕ) (k : Str) → child (new_store blank) n k ≡ none
unfolding child find
new_child blank zero k = refl
new_child blank (suc n) k = refl

new_indexed : {V : Type 0} (blank : V) (n : ℕ) (k : Str) → indexed (new_store blank) n k ≡ none
unfolding indexed find
new_indexed blank zero k = refl
new_indexed blank (suc n) k = refl

new_store-IsTree : {V : Type 0} (blank : V) → IsTree (new_store blank) root_addr
new_store-IsTree blank = record {
  down = λ n k c l e. cc (new_child blank n k, e);
  up = λ n k c l m a. absurd (omega (arith, ap length a));
  apart = λ a b la lb e. omega (arith, la, lb);
  rooted = λ c k a l e. absurd (omega (arith, ap length e));
  leads = λ n k q l e. cc (new_indexed blank n k, e);
}

pub new_store-IsStore : {V : Type 0} (blank : V) → IsStore (new_store blank)
unfolding IsStore
new_store-IsStore blank = (omega arith, root_addr, new_store-IsTree blank)

module _ {V : Type 0} (blank : V) where
  -- Sets at the root, one after the other.
  unfoldable pub set_all : Heap V → List (Str × V) → Option (Heap V)
  unfolding set_raw
  set_all h [] = some h
  set_all h ((k, v) ∷ kvs) = set_raw blank h 0 k v >>= λ r. set_all r.0 kvs

module _ {V : Type 0} where
  -- A dictionary that answers with the last value of a key.
  unfoldable pub look_up : (Str → V) → List (Str × V) → Str → V
  look_up d [] j = d j
  look_up d ((k, v) ∷ kvs) j = look_up (λ i. if str_eq k i then v else d i) kvs j

  look_up_agree :
      (d e : Str → V) (kvs : List (Str × V))
      → ((j : Str) → d j ≡ e j)
      → (j : Str) → look_up d kvs j ≡ look_up e kvs j
  unfolding look_up
  look_up_agree d e [] h j = h j
  look_up_agree d e ((k, v) ∷ kvs) h j =
      look_up_agree (λ i. if str_eq k i then v else d i) (λ i. if str_eq k i then v else e i) kvs
        (λ i. cong_if (str_eq k i) refl (h i)) j

module _ {V : Type 0} (blank : V) where
  pub set_all_from :
      (h : Heap V) (kvs : List (Str × V))
      → IsStore h
      → (h' : Heap V) × (set_all blank h kvs ≡ some h')
        × IsStore h'
        × ((j : Str) → get_raw blank h' 0 j ≡ look_up (get_raw blank h 0) kvs j)
  unfolding set_all look_up IsStore
  set_all_from h [] i = (h, refl, i, λ j. refl)
  set_all_from h ((k, v) ∷ kvs) (r, addr, t) =
      let (h1, p, e, s) = set_raw-Sets blank h addr 0 k v t r in
      let (h2, e2, i2, g) = set_all_from h1 kvs (omega (arith, r, s.grown), s.addr', s.tree) in
      (
        h2,
        ap (λ o. o >>= λ x. set_all blank x.0 kvs) e ∙ e2,
        i2,
        λ j.
            g j
            ∙ look_up_agree (get_raw blank h1 0)
                (λ i. if str_eq k i then v else get_raw blank h 0 i) kvs
                (get_raw-Sets blank h addr 0 k v h1 p t r s) j,
      )

  -- Any sequence of sets at the root of a new tree ends, and the tree then answers every key as a
  -- dictionary does: with the last value that the key was given, or with the null element.
  pub set_all-look_up :
      (kvs : List (Str × V))
      → (h : Heap V) × (set_all blank (new_store blank) kvs ≡ some h)
        × ((j : Str) → get_raw blank h 0 j ≡ look_up (λ i. blank) kvs j)
  set_all-look_up kvs =
      let (h, e, i, g) = set_all_from (new_store blank) kvs (new_store-IsStore blank) in
      (
        h,
        e,
        λ j.
            g j
            ∙ look_up_agree (get_raw blank (new_store blank) 0) (λ i. blank) kvs
                (λ i. get_raw-none blank (new_store blank) 0 i (new_indexed blank 0 i)) j,
      )
