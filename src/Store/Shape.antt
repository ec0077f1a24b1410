-- ===== src/Store/Shape.antt =====
-- The shape of the heap of nodes: every node has one address, the keys of its way from the root
-- with the last one first, and an index leads to the node at the address that its key tells.
use cmdr_cxx.Base.{
  ℕ, ◌<◌, ◌≤◌, List, ◌∷◌, some, Str, ◌≡◌, refl, sym, subst, ◌∙◌, arith, length, if◌then◌else◌,
  Option-cases, Bool-cases, inl, inr, str_eq, str_eq_iff,
}
use cmdr_cxx.Base.Maps.{or_else}
use cmdr_cxx.Store.{Heap, child, indexed, value_of, index, put}
use cmdr_cxx.Store.Keys.{parts, onto}
use cmdr_cxx.Store.Tree.{
  place_cases, length-index, length-put, indexed-index_self, indexed-index_ne, child-index,
  child-put, indexed-put,
}

pub record IsTree {V : Type 0} (h : Heap V) (addr : ℕ → List Str) : Type 0 where
  -- A child stands in the heap, at the address of its parent and its own key.
  pub down :
      (n : ℕ) (k : Str) (c : ℕ)
      → n < length h
      → child h n k ≡ some c
      → (c < length h) × (addr c ≡ k ∷ addr n)
  pub up :
      (n : ℕ) (k : Str) (c : ℕ)
      → n < length h
      → c < length h
      → addr c ≡ k ∷ addr n
      → child h n k ≡ some c
  pub apart : (a b : ℕ) → a < length h → b < length h → addr a ≡ addr b → a ≡ b
  pub rooted :
      (c : ℕ) (k : Str) (a : List Str)
      → c < length h
      → addr c ≡ k ∷ a
      → (n : ℕ) × (n < length h) × (addr n ≡ a)
  pub leads :
      (n : ℕ) (k : Str) (q : ℕ)
      → n < length h
      → indexed h n k ≡ some q
      → (q < length h) × (addr q ≡ onto (parts k) (addr n))

-- What a step to the child k of the node n leaves: the heap h' and the child c. Only the child's
-- own value may be another one.
pub record Entered {V : Type 0} (h : Heap V) (addr : ℕ → List Str) (n : ℕ) (k : Str) (h' : Heap V)
    (c : ℕ) : Type 0 where
  pub addr' : ℕ → List Str
  pub grown : length h ≤ length h'
  pub agrees : (m : ℕ) → m < length h → addr' m ≡ addr m
  pub tree : IsTree h' addr'
  pub within : c < length h'
  pub address : addr' c ≡ k ∷ addr n
  pub values : (m : ℕ) → m < length h → value_of h' m ≡ value_of h m
  pub indexes : (m : ℕ) (j : Str) → indexed h' m j ≡ indexed h m j

module _ {V : Type 0} (h : Heap V) (addr : ℕ → List Str) (t : IsTree h addr) where
  -- The child is there.
  pub stay :
      (n : ℕ) (k : Str) (c : ℕ) → n < length h → child h n k ≡ some c → Entered h addr n k h c
  stay n k c l e = record {
    addr' = addr;
    grown = omega arith;
    agrees = λ m _. refl;
    tree = t;
    within = (t.down n k c l e).0;
    address = (t.down n k c l e).1;
    values = λ m _. refl;
    indexes = λ m j. refl;
  }

  -- The entries of an index with one more.
  index_leads :
      (n : ℕ) (k : Str) (p : ℕ)
      → n < length h
      → p < length h
      → addr p ≡ onto (parts k) (addr n)
      → (m : ℕ) (j : Str) (q : ℕ) → m < length h
      → indexed (index h n k p) m j ≡ some q
      → (q < length h) × (addr q ≡ onto (parts j) (addr m))
  index_leads n k p ln lp a m j q lm e = elim (place_cases n m) [
    | inr ne ↦ t.leads m j q lm (sym (indexed-index_ne h n k p m j ne) ∙ e)
    | inl s ↦
        let x : (if str_eq k j then some (or_else (indexed h n k) p) else indexed h n j) ≡ some q =
          sym (indexed-index_self h n k p j ln)
          ∙ subst (λ i. indexed (index h n k p) i j ≡ some q) (sym s) e in
        subst (λ i. (q < length h) × (addr q ≡ onto (parts j) (addr i))) s
          (elim (Bool-cases (str_eq k j)) [
            | inr b ↦ t.leads n j q ln (
                subst
                  (λ i. (if i then some (or_else (indexed h n k) p) else indexed h n j) ≡ some q) b
                  x)
            | inl b ↦
                let y : some (or_else (indexed h n k) p) ≡ some q =
                  subst
                    (λ i. (if i then some (or_else (indexed h n k) p) else indexed h n j) ≡ some q)
                    b x in
                subst (λ i. (q < length h) × (addr q ≡ onto (parts i) (addr n)))
                  ((str_eq_iff k j).0 b)
                  (elim (Option-cases (indexed h n k)) [
                    | inl z ↦
                        subst (λ i. (i < length h) × (addr i ≡ onto (parts k) (addr n))) (cc (y, z))
                          (lp, a)
                    | inr (r, z) ↦ t.leads n k q ln (cc (y, z))
                  ])
          ])
  ]

  -- A write of a value keeps the shape.
  pub put-IsTree : (c : ℕ) (v : V) → IsTree (put h c v) addr
  put-IsTree c v =
      let s = length-put h c v in
      record {
        down = λ n k d l e.
            let (a, b) = t.down n k d (omega (arith, l, s)) (sym (child-put h c v n k) ∙ e) in
            (omega (arith, a, s), b);
        up = λ n k d l ld a.
            child-put h c v n k ∙ t.up n k d (omega (arith, l, s)) (omega (arith, ld, s)) a;
        apart = λ a b la lb e. t.apart a b (omega (arith, la, s)) (omega (arith, lb, s)) e;
        rooted = λ d k a l e.
            let (m, lm, am) = t.rooted d k a (omega (arith, l, s)) e in
            (m, omega (arith, lm, s), am);
        leads = λ n k q l e.
            let (a, b) = t.leads n k q (omega (arith, l, s)) (sym (indexed-put h c v n k) ∙ e) in
            (omega (arith, a, s), b);
      }

  -- So does an entry in an index, for a key that leads to the node.
  pub index-IsTree :
      (n : ℕ) (k : Str) (p : ℕ)
      → n < length h
      → p < length h
      → addr p ≡ onto (parts k) (addr n)
      → IsTree (index h n k p) addr
  index-IsTree n k p ln lp ap' =
      let s = length-index h n k p in
      record {
        down = λ m j d l e.
            let (a, b) = t.down m j d (omega (arith, l, s)) (sym (child-index h n k p m j) ∙ e) in
            (omega (arith, a, s), b);
        up = λ m j d l ld a.
            child-index h n k p m j ∙ t.up m j d (omega (arith, l, s)) (omega (arith, ld, s)) a;
        apart = λ a b la lb e. t.apart a b (omega (arith, la, s)) (omega (arith, lb, s)) e;
        rooted = λ d j a l e.
            let (m, lm, am) = t.rooted d j a (omega (arith, l, s)) e in
            (m, omega (arith, lm, s), am);
        leads = λ m j q l e.
            let (a, b) = index_leads n k p ln lp ap' m j q (omega (arith, l, s)) e in
            (omega (arith, a, s), b);
      }
