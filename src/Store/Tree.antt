-- ===== src/Store/Tree.antt =====
-- What each change of the heap does to the readings of it: child, indexed and value_of.
use cmdr_cxx.Base.{
  ℕ, zero, suc, ◌<◌, ◌≤◌, Bool, true, false, [], ◌∷◌, Option, none, some, Str, ◌≡◌, ◌≢◌, refl, sym,
  ap, ◌∙◌, subst, Bool-cases, ◌⊎◌, arith, length, get_elem?, set, ◌==◌, if◌then◌else◌, ◌>>=◌,
  Option-cases, inl, inr, str_eq, get_elem?-lt, get_elem?-set_self, get_elem?-set_ne,
  get_elem?-append_lt, get_elem?-append_length, length-set, length-append,
}
use cmdr_cxx.Base.Maps.{find, insert, or_else, find-insert}
use cmdr_cxx.Store.{Node, Heap, fresh, child, indexed, value_of, modify, link, index, put, alloc}

pub cong_if :
    {A : Type 0} (b : Bool) {x y u w : A}
    → x ≡ y
    → u ≡ w
    → (if b then x else u) ≡ (if b then y else w)
cong_if true p q = p
cong_if false p q = q

-- A reading of one node.
abbrev read : {V B : Type 0} → (Node V → Option B) → Heap V → ℕ → Option B
read g h m = get_elem? h m >>= g

module _ {V : Type 0} where
  modify-none : (h : Heap V) (n : ℕ) (f : Node V → Node V) → get_elem? h n ≡ none → modify h n f ≡ h
  unfolding modify
  modify-none h n f e = rw (e, modify) refl

  modify-some :
      (h : Heap V) (n : ℕ) (f : Node V → Node V) (node : Node V)
      → get_elem? h n ≡ some node
      → modify h n f ≡ set h n (f node)
  unfolding modify
  modify-some h n f node e = rw (e, modify) refl

  length-modify : (h : Heap V) (n : ℕ) (f : Node V → Node V) → length (modify h n f) ≡ length h
  length-modify h n f = elim (Option-cases (get_elem? h n)) [
    | inl e ↦ ap length (modify-none h n f e)
    | inr (node, e) ↦ ap length (modify-some h n f node e) ∙ length-set h n (f node)
  ]

  modify_self :
      (h : Heap V) (n : ℕ) (f : Node V → Node V) (node : Node V)
      → get_elem? h n ≡ some node
      → get_elem? (modify h n f) n ≡ some (f node)
  modify_self h n f node e =
      ap (λ x. get_elem? x n) (modify-some h n f node e)
      ∙ get_elem?-set_self h n (f node) (get_elem?-lt h n node e)

  modify_ne :
      (h : Heap V) (n m : ℕ) (f : Node V → Node V)
      → n ≢ m
      → get_elem? (modify h n f) m ≡ get_elem? h m
  modify_ne h n m f ne = elim (Option-cases (get_elem? h n)) [
    | inl e ↦ ap (λ x. get_elem? x m) (modify-none h n f e)
    | inr (node, e) ↦
        ap (λ x. get_elem? x m) (modify-some h n f node e) ∙ get_elem?-set_ne h n m (f node) ne
  ]

-- Two places are one or two.
pub place_cases : (n m : ℕ) → (n ≡ m) ⊎ (n ≢ m)
place_cases n m = elim (Bool-cases (n == m)) [
  | inl e ↦ inl (ground arith)
  | inr e ↦ inr (λ k. ground arith)
]

module _ {V B : Type 0} (g : Node V → Option B) (h : Heap V) (n : ℕ) (f : Node V → Node V) where
  read-modify_ne : (m : ℕ) → n ≢ m → read g (modify h n f) m ≡ read g h m
  read-modify_ne m ne = ap (λ o. o >>= g) (modify_ne h n m f ne)

  read-modify_self :
      (node : Node V) → get_elem? h n ≡ some node → read g (modify h n f) n ≡ g (f node)
  read-modify_self node e = ap (λ o. o >>= g) (modify_self h n f node e)

  -- A change that the reading does not see.
  read-modify_blind :
      ((node : Node V) → g (f node) ≡ g node) → (m : ℕ) → read g (modify h n f) m ≡ read g h m
  read-modify_blind blind m = elim (Option-cases (get_elem? h n)) [
    | inl e ↦ ap (λ x. read g x m) (modify-none h n f e)
    | inr (node, e) ↦ elim (place_cases n m) [
      | inr ne ↦ read-modify_ne m ne
      | inl k ↦
          subst (λ x. read g (modify h n f) x ≡ read g h x) k
            (read-modify_self node e ∙ blind node ∙ sym (ap (λ o. o >>= g) e))
    ]
  ]

module _ {V : Type 0} where
  pub get_elem?-some :
      (h : Heap V) (n : ℕ) → n < length h → (node : Node V) × (get_elem? h n ≡ some node)
  get_elem?-some [] n l = absurd (omega arith)
  get_elem?-some (x ∷ h) zero l = (x, refl)
  get_elem?-some (x ∷ h) (suc n) l = get_elem?-some h n (omega arith)

  pub length-link : (h : Heap V) (n : ℕ) (k : Str) (c : ℕ) → length (link h n k c) ≡ length h
  unfolding link
  length-link h n k c =
      length-modify h n (λ node. record node { children = insert k c node.children })

  pub length-index : (h : Heap V) (n : ℕ) (k : Str) (c : ℕ) → length (index h n k c) ≡ length h
  unfolding index
  length-index h n k c =
      length-modify h n (λ node. record node { indexes = insert k c node.indexes })

  pub length-put : (h : Heap V) (n : ℕ) (v : V) → length (put h n v) ≡ length h
  unfolding put
  length-put h n v = length-modify h n (λ node. record node { value = v })

  pub child-link_self :
      (h : Heap V) (n : ℕ) (k : Str) (c : ℕ) (j : Str)
      → n < length h
      → child (link h n k c) n j
        ≡ (if str_eq k j then some (or_else (child h n k) c) else child h n j)
  unfolding child link
  child-link_self h n k c j l =
      let (node, e) = get_elem?-some h n l in
      let a =
        read-modify_self (λ x. find j x.children) h n
          (λ x. record x { children = insert k c x.children }) node e in
      let b : child h n k ≡ find k node.children = ap (λ o. o >>= λ x. find k x.children) e in
      let d : child h n j ≡ find j node.children = ap (λ o. o >>= λ x. find j x.children) e in
      a
      ∙ find-insert k j c node.children
      ∙ sym (cong_if (str_eq k j) (ap (λ o. some (or_else o c)) b) d)

  pub child-link_ne :
      (h : Heap V) (n : ℕ) (k : Str) (c m : ℕ) (j : Str)
      → n ≢ m
      → child (link h n k c) m j ≡ child h m j
  unfolding child link
  child-link_ne h n k c m j ne =
      read-modify_ne (λ x. find j x.children) h n
        (λ x. record x { children = insert k c x.children }) m ne

  pub indexed-index_self :
      (h : Heap V) (n : ℕ) (k : Str) (p : ℕ) (j : Str)
      → n < length h
      → indexed (index h n k p) n j
        ≡ (if str_eq k j then some (or_else (indexed h n k) p) else indexed h n j)
  unfolding indexed index
  indexed-index_self h n k p j l =
      let (node, e) = get_elem?-some h n l in
      let a =
        read-modify_self (λ x. find j x.indexes) h n
          (λ x. record x { indexes = insert k p x.indexes }) node e in
      let b : indexed h n k ≡ find k node.indexes = ap (λ o. o >>= λ x. find k x.indexes) e in
      let d : indexed h n j ≡ find j node.indexes = ap (λ o. o >>= λ x. find j x.indexes) e in
      a
      ∙ find-insert k j p node.indexes
      ∙ sym (cong_if (str_eq k j) (ap (λ o. some (or_else o p)) b) d)

  pub indexed-index_ne :
      (h : Heap V) (n : ℕ) (k : Str) (p m : ℕ) (j : Str)
      → n ≢ m
      → indexed (index h n k p) m j ≡ indexed h m j
  unfolding indexed index
  indexed-index_ne h n k p m j ne =
      read-modify_ne (λ x. find j x.indexes) h n (λ x. record x { indexes = insert k p x.indexes })
        m ne

  pub value_of-put_self :
      (h : Heap V) (n : ℕ) (v : V) → n < length h → value_of (put h n v) n ≡ some v
  unfolding value_of put
  value_of-put_self h n v l =
      let (node, e) = get_elem?-some h n l in
      read-modify_self (λ x. some x.value) h n (λ x. record x { value = v }) node e

  pub value_of-put_ne :
      (h : Heap V) (n : ℕ) (v : V) (m : ℕ) → n ≢ m → value_of (put h n v) m ≡ value_of h m
  unfolding value_of put
  value_of-put_ne h n v m ne =
      read-modify_ne (λ x. some x.value) h n (λ x. record x { value = v }) m ne

  -- The readings that a change leaves alone.
  pub child-index :
      (h : Heap V) (n : ℕ) (k : Str) (p m : ℕ) (j : Str) → child (index h n k p) m j ≡ child h m j
  unfolding child index
  child-index h n k p m j =
      read-modify_blind (λ x. find j x.children) h n
        (λ x. record x { indexes = insert k p x.indexes }) (λ x. refl) m

  pub child-put :
      (h : Heap V) (n : ℕ) (v : V) (m : ℕ) (j : Str) → child (put h n v) m j ≡ child h m j
  unfolding child put
  child-put h n v m j =
      read-modify_blind (λ x. find j x.children) h n (λ x. record x { value = v }) (λ x. refl) m

  pub indexed-link :
      (h : Heap V) (n : ℕ) (k : Str) (c m : ℕ) (j : Str)
      → indexed (link h n k c) m j ≡ indexed h m j
  unfolding indexed link
  indexed-link h n k c m j =
      read-modify_blind (λ x. find j x.indexes) h n
        (λ x. record x { children = insert k c x.children }) (λ x. refl) m

  pub indexed-put :
      (h : Heap V) (n : ℕ) (v : V) (m : ℕ) (j : Str) → indexed (put h n v) m j ≡ indexed h m j
  unfolding indexed put
  indexed-put h n v m j =
      read-modify_blind (λ x. find j x.indexes) h n (λ x. record x { value = v }) (λ x. refl) m

  pub value_of-link :
      (h : Heap V) (n : ℕ) (k : Str) (c m : ℕ) → value_of (link h n k c) m ≡ value_of h m
  unfolding value_of link
  value_of-link h n k c m =
      read-modify_blind (λ x. some x.value) h n (λ x. record x { children = insert k c x.children })
        (λ x. refl) m

  pub value_of-index :
      (h : Heap V) (n : ℕ) (k : Str) (p m : ℕ) → value_of (index h n k p) m ≡ value_of h m
  unfolding value_of index
  value_of-index h n k p m =
      read-modify_blind (λ x. some x.value) h n (λ x. record x { indexes = insert k p x.indexes })
        (λ x. refl) m

  pub length-alloc : (h : Heap V) (w : V) → length (alloc h w) ≡ suc (length h)
  unfolding alloc
  length-alloc h w = omega (arith, length-append h (fresh w ∷ []))

  -- A node that is made has no child and no index, as a node that is not there.
  pub child-alloc : (h : Heap V) (w : V) (m : ℕ) (j : Str) → child (alloc h w) m j ≡ child h m j
  unfolding child alloc find
  child-alloc [] w zero j = refl
  child-alloc [] w (suc m) j = refl
  child-alloc (x ∷ h) w zero j = refl
  child-alloc (x ∷ h) w (suc m) j = child-alloc h w m j

  pub indexed-alloc :
      (h : Heap V) (w : V) (m : ℕ) (j : Str) → indexed (alloc h w) m j ≡ indexed h m j
  unfolding indexed alloc find
  indexed-alloc [] w zero j = refl
  indexed-alloc [] w (suc m) j = refl
  indexed-alloc (x ∷ h) w zero j = refl
  indexed-alloc (x ∷ h) w (suc m) j = indexed-alloc h w m j

  pub value_of-alloc_lt :
      (h : Heap V) (w : V) (m : ℕ) → m < length h → value_of (alloc h w) m ≡ value_of h m
  unfolding value_of alloc
  value_of-alloc_lt h w m l =
      ap (λ o. o >>= λ x. some x.value) (get_elem?-append_lt h (fresh w ∷ []) m l)

  pub value_of-alloc_new : (h : Heap V) (w : V) → value_of (alloc h w) (length h) ≡ some w
  unfolding value_of alloc
  value_of-alloc_new h w = ap (λ o. o >>= λ x. some x.value) (get_elem?-append_length h (fresh w))

  pub get_elem?-none : (h : Heap V) (m : ℕ) → length h ≤ m → get_elem? h m ≡ none
  get_elem?-none [] m l = refl
  get_elem?-none (x ∷ h) zero l = absurd (omega arith)
  get_elem?-none (x ∷ h) (suc m) l = get_elem?-none h m (omega arith)

  pub child_out : (h : Heap V) (m : ℕ) (j : Str) → length h ≤ m → child h m j ≡ none
  unfolding child
  child_out h m j l = ap (λ o. o >>= λ x. find j x.children) (get_elem?-none h m l)

  pub indexed_out : (h : Heap V) (m : ℕ) (j : Str) → length h ≤ m → indexed h m j ≡ none
  unfolding indexed
  indexed_out h m j l = ap (λ o. o >>= λ x. find j x.indexes) (get_elem?-none h m l)
