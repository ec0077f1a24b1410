-- ===== src/Store/Sets.antt =====
-- What nodeT::_set leaves: the value at the node that the key leads to, an entry for it in the
-- index of each node on the way, and everything else as it was.
use cmdr_cxx.Base.{
  ℕ, zero, suc, ◌<◌, ◌≤◌, List, [], ◌∷◌, none, some, Str, ◌≡◌, ◌≢◌, refl, sym, subst, ap, ◌∙◌,
  arith, length, if◌then◌else◌, ◌>>=◌, Option-cases, inl, inr, str_eq,
}
use cmdr_cxx.Base.Maps.{or_else}
use cmdr_cxx.Store.{
  Heap, cut_dot, child, indexed, value_of, index, put, link, alloc, enter, assign_child, set_at,
}
use cmdr_cxx.Store.Keys.{parts, onto, parts-cut_none, parts-cut_some}
use cmdr_cxx.Store.Shape.{IsTree, Entered, stay, put-IsTree, index-IsTree}
use cmdr_cxx.Store.Grow.{enter_new, value_of-made}
use cmdr_cxx.Store.Tree.{
  cong_if, length-put, length-index, value_of-put_self, value_of-put_ne, value_of-index,
  indexed-put, indexed-index_self, indexed-index_ne,
}

-- The outcome of a set of the key at the node n: the heap h' and the node p.
pub record Sets {V : Type 0} (h : Heap V) (addr : ℕ → List Str) (n : ℕ) (key : Str) (v : V)
    (h' : Heap V) (p : ℕ) : Type 0 where
  pub addr' : ℕ → List Str
  pub grown : length h ≤ length h'
  pub agrees : (m : ℕ) → m < length h → addr' m ≡ addr m
  pub tree : IsTree h' addr'
  pub within : p < length h'
  pub address : addr' p ≡ onto (parts key) (addr n)
  pub stored : value_of h' p ≡ some v
  pub frame : (q : ℕ) → q < length h → q ≢ p → value_of h' q ≡ value_of h q
  pub own :
      (j : Str)
      → indexed h' n j
        ≡ (if str_eq key j then some (or_else (indexed h n key) p) else indexed h n j)
  pub above :
      (m : ℕ) (j : Str)
      → m < length h
      → length (addr m) < length (addr n)
      → indexed h' m j ≡ indexed h m j

module _ {V : Type 0} (blank : V) where
  enter-some :
      (h : Heap V) (n : ℕ) (k : Str) (c : ℕ) → child h n k ≡ some c → enter blank h n k ≡ (h, c)
  unfolding enter
  enter-some h n k c e = rw (e, enter) refl

  enter-none :
      (h : Heap V) (n : ℕ) (k : Str)
      → child h n k ≡ none
      → enter blank h n k ≡ (link (alloc h blank) n k (length h), length h)
  unfolding enter
  enter-none h n k e = rw (e, enter) refl

module _ {V : Type 0} where
  assign_some :
      (h : Heap V) (n : ℕ) (k : Str) (v : V) (c : ℕ)
      → child h n k ≡ some c
      → assign_child h n k v ≡ (put h c v, c)
  unfolding assign_child
  assign_some h n k v c e = rw (e, assign_child) refl

  assign_none :
      (h : Heap V) (n : ℕ) (k : Str) (v : V)
      → child h n k ≡ none
      → assign_child h n k v ≡ (link (alloc h v) n k (length h), length h)
  unfolding assign_child
  assign_none h n k v e = rw (e, assign_child) refl

module _ {V : Type 0} (blank : V) where
  set_at_leaf :
      (fuel : ℕ) (h : Heap V) (n : ℕ) (key : Str) (v : V)
      → cut_dot key ≡ none
      → set_at blank (suc fuel) h n key v
        ≡ some (
          index (assign_child h n key v).0 n key (assign_child h n key v).1,
          (assign_child h n key v).1,
        )
  unfolding set_at
  set_at_leaf fuel h n key v e = rw (e, set_at) refl

  set_at_step :
      (fuel : ℕ) (h : Heap V) (n : ℕ) (key : Str) (v : V) (k r : Str)
      → cut_dot key ≡ some (k, r)
      → set_at blank (suc fuel) h n key v ≡ (
          set_at blank fuel (enter blank h n k).0 (enter blank h n k).1 r v >>= λ o.
          some (index o.0 n key o.1, o.1))
  unfolding set_at
  set_at_step fuel h n key v k r e = rw (e, set_at) refl

module _ {V : Type 0} (blank : V) where
  enter-Entered :
      (h : Heap V) (addr : ℕ → List Str) (t : IsTree h addr) (n : ℕ) (k : Str)
      → n < length h
      → Entered h addr n k (enter blank h n k).0 (enter blank h n k).1
  enter-Entered h addr t n k l = elim (Option-cases (child h n k)) [
    | inr (c, e) ↦
        subst (λ o. Entered h addr n k o.0 o.1) (sym (enter-some blank h n k c e))
          (stay h addr t n k c l e)
    | inl e ↦
        subst (λ o. Entered h addr n k o.0 o.1) (sym (enter-none blank h n k e))
          (enter_new h addr t n k l e blank)
  ]

-- The same step with a value for the child: everything but that value is as after the step.
record Assigned {V : Type 0} (h : Heap V) (addr : ℕ → List Str) (n : ℕ) (k : Str) (v : V)
    (h' : Heap V) (c : ℕ) : Type 0 where
  addr' : ℕ → List Str
  grown : length h ≤ length h'
  agrees : (m : ℕ) → m < length h → addr' m ≡ addr m
  tree : IsTree h' addr'
  within : c < length h'
  address : addr' c ≡ k ∷ addr n
  stored : value_of h' c ≡ some v
  values : (m : ℕ) → m < length h → m ≢ c → value_of h' m ≡ value_of h m
  indexes : (m : ℕ) (j : Str) → indexed h' m j ≡ indexed h m j

module _ {V : Type 0} (h : Heap V) (addr : ℕ → List Str) (t : IsTree h addr) (n : ℕ) (k : Str)
    (l : n < length h) (v : V) where
  Assigned-old : (c : ℕ) → child h n k ≡ some c → Assigned h addr n k v (put h c v) c
  Assigned-old c e =
      let (lc, a) = t.down n k c l e in
      record {
        addr' = addr;
        grown = omega (arith, length-put h c v);
        agrees = λ m _. refl;
        tree = put-IsTree h addr t c v;
        within = omega (arith, length-put h c v, lc);
        address = a;
        stored = value_of-put_self h c v lc;
        values = λ m _ ne. value_of-put_ne h c v m (λ s. ne (sym s));
        indexes = indexed-put h c v;
      }

  Assigned-new :
      child h n k ≡ none → Assigned h addr n k v (link (alloc h v) n k (length h)) (length h)
  Assigned-new e =
      let s = enter_new h addr t n k l e v in
      record {
        addr' = s.addr';
        grown = s.grown;
        agrees = s.agrees;
        tree = s.tree;
        within = s.within;
        address = s.address;
        stored = value_of-made h addr t n k l e v;
        values = λ m lm _. s.values m lm;
        indexes = s.indexes;
      }

  assign_child-Assigned : Assigned h addr n k v (assign_child h n k v).0 (assign_child h n k v).1
  assign_child-Assigned = elim (Option-cases (child h n k)) [
    | inr (c, e) ↦
        subst (λ o. Assigned h addr n k v o.0 o.1) (sym (assign_some h n k v c e))
          (Assigned-old c e)
    | inl e ↦
        subst (λ o. Assigned h addr n k v o.0 o.1) (sym (assign_none h n k v e)) (Assigned-new e)
  ]

  -- The key has one part.
  leaf-Sets :
      (h' : Heap V) (c : ℕ)
      → parts k ≡ k ∷ []
      → Assigned h addr n k v h' c
      → Sets h addr n k v (index h' n k c) c
  leaf-Sets h' c e s =
      let ln : n < length h' = omega (arith, l, s.grown) in
      let path : s.addr' c ≡ onto (parts k) (addr n) = rw e s.address in
      let path' : s.addr' c ≡ onto (parts k) (s.addr' n) =
        path ∙ ap (onto (parts k)) (sym (s.agrees n l)) in
      record {
        addr' = s.addr';
        grown = omega (arith, length-index h' n k c, s.grown);
        agrees = s.agrees;
        tree = index-IsTree h' s.addr' s.tree n k c ln s.within path';
        within = omega (arith, length-index h' n k c, s.within);
        address = path;
        stored = value_of-index h' n k c c ∙ s.stored;
        frame = λ q lq ne. value_of-index h' n k c q ∙ s.values q lq ne;
        own = λ j.
            indexed-index_self h' n k c j ln
            ∙ cong_if (str_eq k j) (ap (λ o. some (or_else o c)) (s.indexes n k)) (s.indexes n j);
        above = λ m j lm d.
            indexed-index_ne h' n k c m j (λ x. omega (arith, d, ap (λ y. length (addr y)) x))
            ∙ s.indexes m j;
      }

  -- The key has a first part and others behind it.
  step-Sets :
      (key r : Str) (h1 : Heap V) (c : ℕ) (h2 : Heap V) (p : ℕ)
      → parts key ≡ k ∷ parts r
      → (s : Entered h addr n k h1 c) → Sets h1 s.addr' c r v h2 p
      → Sets h addr n key v (index h2 n key p) p
  step-Sets key r h1 c h2 p e s u =
      let l1 : n < length h1 = omega (arith, l, s.grown) in
      let l2 : n < length h2 = omega (arith, l1, u.grown) in
      let a0 : u.addr' n ≡ addr n = u.agrees n l1 ∙ s.agrees n l in
      let deep : length (s.addr' c) ≡ suc (length (addr n)) = ap length s.address in
      let path : u.addr' p ≡ onto (parts key) (addr n) =
        u.address ∙ ap (onto (parts r)) s.address ∙ sym (ap (λ x. onto x (addr n)) e) in
      let path' : u.addr' p ≡ onto (parts key) (u.addr' n) =
        path ∙ ap (onto (parts key)) (sym a0) in
      let shallow : (m : ℕ)
          → m < length h
          → length (addr m) < suc (length (addr n))
          → length (s.addr' m) < length (s.addr' c) =
        λ m lm d. omega (arith, d, deep, ap length (s.agrees m lm)) in
      let same : (m : ℕ) (j : Str)
          → m < length h
          → length (addr m) < suc (length (addr n))
          → indexed h2 m j ≡ indexed h m j =
        λ m j lm d. u.above m j (omega (arith, lm, s.grown)) (shallow m lm d) ∙ s.indexes m j in
      record {
        addr' = u.addr';
        grown = omega (arith, length-index h2 n key p, s.grown, u.grown);
        agrees = λ m lm. u.agrees m (omega (arith, lm, s.grown)) ∙ s.agrees m lm;
        tree = index-IsTree h2 u.addr' u.tree n key p l2 u.within path';
        within = omega (arith, length-index h2 n key p, u.within);
        address = path;
        stored = value_of-index h2 n key p p ∙ u.stored;
        frame = λ q lq ne.
            value_of-index h2 n key p q ∙ u.frame q (omega (arith, lq, s.grown)) ne ∙ s.values q lq;
        own = λ j.
            indexed-index_self h2 n key p j l2
            ∙ cong_if (str_eq key j) (ap (λ o. some (or_else o p)) (same n key l (omega arith)))
                (same n j l (omega arith));
        above = λ m j lm d.
            indexed-index_ne h2 n key p m j (λ x. omega (arith, d, ap (λ y. length (addr y)) x))
            ∙ same m j lm (omega (arith, d));
      }

module _ {V : Type 0} (blank : V) where
  pub set_at-Sets :
      (fuel : ℕ) (h : Heap V) (addr : ℕ → List Str) (n : ℕ) (key : Str) (v : V)
      → IsTree h addr
      → n < length h
      → length key < fuel
      → (h' : Heap V) × (p : ℕ) × (set_at blank fuel h n key v ≡ some (h', p))
        × Sets h addr n key v h' p
  set_at-Sets zero h addr n key v t l f = absurd (omega arith)
  set_at-Sets (suc fuel) h addr n key v t l f = elim (Option-cases (cut_dot key)) [
    | inl e ↦ (
      _,
      _,
      set_at_leaf blank fuel h n key v e,
      leaf-Sets h addr t n key l v _ _ (parts-cut_none key e)
          (assign_child-Assigned h addr t n key l v),
    )
    | inr ((k, r), e) ↦
        let (pe, lr) = parts-cut_some key k r e in
        let s = enter-Entered blank h addr t n k l in
        let (h2, p, eq, u) =
          set_at-Sets fuel _ s.addr' _ r v s.tree s.within (omega (arith, lr, f)) in
        (
          _,
          p,
          set_at_step blank fuel h n key v k r e
              ∙ ap (λ o. o >>= λ x. some (index x.0 n key x.1, x.1)) eq,
          step-Sets h addr t n k l v key r _ _ h2 p pe s u,
        )
  ]
