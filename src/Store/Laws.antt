-- ===== src/Store/Laws.antt =====
-- The store as a dictionary: set_raw and get_raw on any heap that set_raw can reach.
use cmdr_cxx.Base.{
  ℕ, suc, ◌<◌, ◌≤◌, false, List, ◌∷◌, none, some, Str, ◌≡◌, ◌≢◌, refl, sym, subst, ap, ◌∙◌, arith,
  length, length-append, if◌then◌else◌, Option-cases, Bool-cases, inl, inr, str_eq, str_eq_iff,
  str_eq_refl,
}
use cmdr_cxx.Base.Maps.{or_else}
use cmdr_cxx.Store.{Heap, indexed, value_of, set_raw, get_raw, set_raw_p, get_raw_p, has, prefixed}
use cmdr_cxx.Store.Keys.{parts, onto, onto-parts_injective}
use cmdr_cxx.Store.Shape.{IsTree}
use cmdr_cxx.Store.Sets.{Sets, set_at-Sets}

-- The heap is a tree with a root.
unfoldable pub IsStore : {V : Type 0} → Heap V → Type 0
IsStore h = ((0 < length h) × (addr : ℕ → List Str) × IsTree h addr)

module _ {V : Type 0} (blank : V) where
  pub set_raw-Sets :
      (h : Heap V) (addr : ℕ → List Str) (n : ℕ) (key : Str) (v : V)
      → IsTree h addr
      → n < length h
      → (h' : Heap V) × (p : ℕ) × (set_raw blank h n key v ≡ some (h', p))
        × Sets h addr n key v h' p
  unfolding set_raw
  set_raw-Sets h addr n key v t l =
      set_at-Sets blank (suc (length key)) h addr n key v t l (omega arith)

  -- At any node of a store set_raw ends, whatever the key, and leaves a store that is not smaller.
  pub set_raw-IsStore :
      (h : Heap V) (n : ℕ) (key : Str) (v : V)
      → IsStore h
      → n < length h
      → (h' : Heap V) × (p : ℕ) × (set_raw blank h n key v ≡ some (h', p))
        × IsStore h'
        × (length h ≤ length h')
  unfolding IsStore
  set_raw-IsStore h n key v (r, addr, t) l =
      let (h', p, e, s) = set_raw-Sets h addr n key v t l in
      (h', p, e, (omega (arith, r, s.grown), s.addr', s.tree), s.grown)

  pub get_raw-none :
      (h : Heap V) (n : ℕ) (j : Str) → indexed h n j ≡ none → get_raw blank h n j ≡ blank
  unfolding get_raw
  get_raw-none h n j e = rw (e, get_raw) refl

  get_raw-some :
      (h : Heap V) (n : ℕ) (j : Str) (q : ℕ)
      → indexed h n j ≡ some q
      → get_raw blank h n j ≡ or_else (value_of h q) blank
  unfolding get_raw
  get_raw-some h n j q e = rw (e, get_raw) refl

-- What a set means for the readings at its node.
module _ {V : Type 0} (blank : V) (h : Heap V) (addr : ℕ → List Str) (n : ℕ) (key : Str) (v : V)
    (h' : Heap V) (p : ℕ) (t : IsTree h addr) (l : n < length h)
    (s : Sets h addr n key v h' p) where
  -- An entry of the key leads where the set went.
  entry_same : (q : ℕ) → indexed h n key ≡ some q → q ≡ p
  entry_same q e =
      let (lq, a) = t.leads n key q l e in
      s.tree.apart q p (omega (arith, lq, s.grown)) s.within (s.agrees q lq ∙ a ∙ sym s.address)

  at_key : indexed h' n key ≡ some p
  at_key =
      s.own key
      ∙ ap (λ b. if b then some (or_else (indexed h n key) p) else indexed h n key)
          (str_eq_refl key)
      ∙ elim (Option-cases (indexed h n key)) [
        | inl e ↦ ap (λ o. some (or_else o p)) e
        | inr (q, e) ↦ ap (λ o. some (or_else o p)) e ∙ ap some (entry_same q e)
      ]

  at_other : (j : Str) → str_eq key j ≡ false → indexed h' n j ≡ indexed h n j
  at_other j b =
      s.own j ∙ ap (λ b. if b then some (or_else (indexed h n key) p) else indexed h n j) b

  -- Another key leads elsewhere.
  entry_other : (j : Str) (q : ℕ) → str_eq key j ≡ false → indexed h n j ≡ some q → q ≢ p
  entry_other j q b e x =
      let (lq, a) = t.leads n j q l e in
      let path : onto (parts j) (addr n) ≡ onto (parts key) (addr n) =
        sym a ∙ sym (s.agrees q lq) ∙ ap s.addr' x ∙ s.address in
      cc (b, (str_eq_iff key j).1 (sym (onto-parts_injective j key (addr n) path)))

  get_raw_other : (j : Str) → str_eq key j ≡ false → get_raw blank h' n j ≡ get_raw blank h n j
  get_raw_other j b = elim (Option-cases (indexed h n j)) [
    | inl e ↦ get_raw-none blank h' n j (at_other j b ∙ e) ∙ sym (get_raw-none blank h n j e)
    | inr (q, e) ↦
        get_raw-some blank h' n j q (at_other j b ∙ e)
        ∙ ap (λ o. or_else o blank) (s.frame q (t.leads n j q l e).0 (entry_other j q b e))
        ∙ sym (get_raw-some blank h n j q e)
  ]

  pub get_raw-Sets :
      (j : Str) → get_raw blank h' n j ≡ (if str_eq key j then v else get_raw blank h n j)
  get_raw-Sets j = elim (Bool-cases (str_eq key j)) [
    | inr b ↦ get_raw_other j b ∙ sym (ap (λ c. if c then v else get_raw blank h n j) b)
    | inl b ↦
        subst (λ i. get_raw blank h' n i ≡ v) ((str_eq_iff key j).0 b)
          (get_raw-some blank h' n key p at_key ∙ ap (λ o. or_else o blank) s.stored)
        ∙ sym (ap (λ c. if c then v else get_raw blank h n j) b)
  ]

module _ {V : Type 0} (blank : V) where
  -- At any node of a store set_raw ends; then a read of the same key at that node gives the value,
  -- and a read of any other key gives what it gave before.
  pub get_raw-set_raw :
      (h : Heap V) (n : ℕ) (key : Str) (v : V)
      → IsStore h
      → n < length h
      → (h' : Heap V) × (p : ℕ) × (set_raw blank h n key v ≡ some (h', p))
        × ((j : Str) → get_raw blank h' n j ≡ (if str_eq key j then v else get_raw blank h n j))
  unfolding IsStore
  get_raw-set_raw h n key v (r, addr, t) l =
      let (h', p, e, s) = set_raw-Sets blank h addr n key v t l in
      (h', p, e, get_raw-Sets blank h addr n key v h' p t l s)

  longer : (c : ℕ) (prefix key : Str) → str_eq (prefixed (c ∷ prefix) key) key ≡ false
  unfolding prefixed
  longer c prefix key = elim (Bool-cases (str_eq (prefixed (c ∷ prefix) key) key)) [
    | inr b ↦ b
    | inl b ↦ absurd (
        omega (
          arith,
          ap length ((str_eq_iff (prefixed (c ∷ prefix) key) key).0 b),
          length-append (c ∷ prefix) (b'.' ∷ key),
        ))
  ]

  has_not :
      (h : Heap V) (n : ℕ) (prefix key : Str) → indexed h n key ≡ none → has h n prefix key ≡ false
  unfolding has
  has_not h n prefix key e = rw (e, has) refl

  -- At a node of a store with no entry for the bare key, set_raw_p with a prefix that is not empty
  -- ends; then get_raw_p finds the value and has says that it is not there.
  pub has_ignores_prefix :
      (h : Heap V) (n c : ℕ) (prefix key : Str) (v : V)
      → IsStore h
      → n < length h
      → indexed h n key ≡ none
      → (h' : Heap V) × (p : ℕ) × (set_raw_p blank h n (c ∷ prefix) key v ≡ some (h', p))
        × (get_raw_p blank h' n (c ∷ prefix) key ≡ v)
        × (has h' n (c ∷ prefix) key ≡ false)
  unfolding IsStore set_raw_p get_raw_p
  has_ignores_prefix h n c prefix key v (r, addr, t) l e =
      let (h', p, q, s) = set_raw-Sets blank h addr n (prefixed (c ∷ prefix) key) v t l in
      let b = longer c prefix key in
      (
        h',
        p,
        q,
        get_raw-Sets blank h addr n (prefixed (c ∷ prefix) key) v h' p t l s
              (prefixed (c ∷ prefix) key)
            ∙ ap (λ x. if x then v else get_raw blank h n (prefixed (c ∷ prefix) key))
                (str_eq_refl (prefixed (c ∷ prefix) key)),
        has_not h' n (c ∷ prefix) key
            (at_other blank h addr n (prefixed (c ∷ prefix) key) v h' p t l s key b ∙ e),
      )
