-- ===== src/Store/Grow.antt =====
-- A step to a child that is not there makes a node, and the heap stays a tree.
use cmdr_cxx.Base.{
  ℕ, suc, ◌<◌, false, List, ◌∷◌, none, some, Str, ◌≡◌, ◌≢◌, sym, subst, ap, ◌∙◌, arith, length,
  if◌then◌else◌, ◌==◌, Bool-cases, inl, inr, ◌⊎◌, ==_iff, ==_refl, str_eq, str_eq_iff, str_eq_refl,
}
use cmdr_cxx.Base.Maps.{or_else}
use cmdr_cxx.Store.{Heap, child, indexed, value_of, link, alloc}
use cmdr_cxx.Store.Keys.{parts, onto}
use cmdr_cxx.Store.Tree.{
  cong_if, place_cases, length-link, child-link_self, child-link_ne, indexed-link, value_of-link,
  length-alloc, child-alloc, indexed-alloc, value_of-alloc_lt, value_of-alloc_new, child_out,
  indexed_out,
}
use cmdr_cxx.Store.Shape.{IsTree, Entered}

cons_inj : {A : Type 0} {x y : A} {xs ys : List A} → x ∷ xs ≡ y ∷ ys → (x ≡ y) × (xs ≡ ys)
cons_inj e = (cc e, cc e)

-- The addresses with one more node.
abbrev extended : (ℕ → List Str) → ℕ → List Str → ℕ → List Str
extended addr p a m = if m == p then a else addr m

==-ne : (m p : ℕ) → m ≢ p → (m == p) ≡ false
==-ne m p ne = elim (Bool-cases (m == p)) [ inl e ↦ absurd (ne ((==_iff m p).0 e)) | inr e ↦ e ]

extended_self : (addr : ℕ → List Str) (p : ℕ) (a : List Str) → extended addr p a p ≡ a
extended_self addr p a = ap (λ b. if b then a else addr p) (==_refl p)

extended_ne :
    (addr : ℕ → List Str) (p : ℕ) (a : List Str) (m : ℕ) → m ≢ p → extended addr p a m ≡ addr m
extended_ne addr p a m ne = ap (λ b. if b then a else addr m) (==-ne m p ne)

module _ {V : Type 0} (h : Heap V) (addr : ℕ → List Str) (t : IsTree h addr) where
  -- The child is made, with any value.
  module _ (n : ℕ) (k : Str) (l : n < length h) (e : child h n k ≡ none) (w : V) where
    abbrev pub made : Heap V
    made = link (alloc h w) n k (length h)

    abbrev made_addr : ℕ → List Str
    made_addr = extended addr (length h) (k ∷ addr n)

    length-made : length made ≡ suc (length h)
    length-made = length-link (alloc h w) n k (length h) ∙ length-alloc h w

    child-made_self :
        (j : Str) → child made n j ≡ (if str_eq k j then some (length h) else child h n j)
    child-made_self j =
        child-link_self (alloc h w) n k (length h) j (omega (arith, l, length-alloc h w))
        ∙ cong_if (str_eq k j) (ap (λ o. some (or_else o (length h))) (child-alloc h w n k ∙ e))
            (child-alloc h w n j)

    child-made_ne : (m : ℕ) (j : Str) → n ≢ m → child made m j ≡ child h m j
    child-made_ne m j ne = child-link_ne (alloc h w) n k (length h) m j ne ∙ child-alloc h w m j

    child-made_new : child made n k ≡ some (length h)
    child-made_new =
        child-made_self k ∙ ap (λ b. if b then some (length h) else child h n k) (str_eq_refl k)

    -- A child of the new heap is an old one or the new one.
    child-made_cases :
        (m : ℕ) (j : Str) (c : ℕ)
        → child made m j ≡ some c
        → (child h m j ≡ some c) ⊎ ((m ≡ n) × (j ≡ k) × (c ≡ length h))
    child-made_cases m j c ec = elim (place_cases n m) [
      | inr ne ↦ inl (sym (child-made_ne m j ne) ∙ ec)
      | inl s ↦ elim (Bool-cases (str_eq k j)) [
        | inl b ↦
            let x : some (length h) ≡ some c =
              sym (child-made_self j ∙ ap (λ b. if b then some (length h) else child h n j) b)
              ∙ subst (λ y. child made y j ≡ some c) (sym s) ec in
            inr (sym s, sym ((str_eq_iff k j).0 b), cc x)
        | inr b ↦
            let x : child h n j ≡ some c =
              sym (child-made_self j ∙ ap (λ b. if b then some (length h) else child h n j) b)
              ∙ subst (λ y. child made y j ≡ some c) (sym s) ec in
            inl (subst (λ y. child h y j ≡ some c) s x)
      ]
    ]

    -- The old children stay.
    child-made_old : (m : ℕ) (j : Str) (c : ℕ) → child h m j ≡ some c → child made m j ≡ some c
    child-made_old m j c ec = elim (place_cases n m) [
      | inr ne ↦ child-made_ne m j ne ∙ ec
      | inl s ↦ elim (Bool-cases (str_eq k j)) [
        | inl b ↦
            let x : child h n k ≡ some c = rw (s, (str_eq_iff k j).0 b) ec in absurd (cc (x, e))
        | inr b ↦
            subst (λ y. child made y j ≡ some c) s
              (child-made_self j ∙ ap (λ b. if b then some (length h) else child h n j) b ∙ rw s ec)
      ]
    ]

    -- No node has the new address.
    vacant : (c : ℕ) → c < length h → addr c ≢ k ∷ addr n
    vacant c lc a = cc (t.up n k c l lc a, e)

    old_addr : (m : ℕ) → m < length h → made_addr m ≡ addr m
    old_addr m lm = extended_ne addr (length h) (k ∷ addr n) m (λ s. omega (arith, s, lm))

    new_addr : made_addr (length h) ≡ k ∷ addr n
    new_addr = extended_self addr (length h) (k ∷ addr n)

    -- A node of the new heap is an old one or the new one.
    member_cases : (m : ℕ) → m < length made → (m < length h) ⊎ (m ≡ length h)
    member_cases m lm = elim (place_cases m (length h)) [
      | inl s ↦ inr s
      | inr ne ↦ inl (omega (arith, length-made, lm, ne))
    ]

    indexed-made : (m : ℕ) (j : Str) → indexed made m j ≡ indexed h m j
    indexed-made m j = indexed-link (alloc h w) n k (length h) m j ∙ indexed-alloc h w m j

    made_down :
        (m : ℕ) (j : Str) (c : ℕ)
        → m < length made
        → child made m j ≡ some c
        → (c < length made) × (made_addr c ≡ j ∷ made_addr m)
    made_down m j c lm ec = elim (child-made_cases m j c ec) [
      | inr (sm, sj, sc) ↦ (
        omega (arith, length-made, sc),
        ap made_addr sc ∙ new_addr ∙ rw (sm, sj) (ap (λ a. k ∷ a) (sym (old_addr n l))),
      )
      | inl x ↦ elim (member_cases m lm) [
        | inr s ↦ absurd (cc (x, child_out h m j (omega (arith, s))))
        | inl o ↦
            let (lc, a) = t.down m j c o x in
            (
              omega (arith, length-made, lc),
              old_addr c lc ∙ a ∙ ap (λ b. j ∷ b) (sym (old_addr m o)),
            )
      ]
    ]

    made_up :
        (m : ℕ) (j : Str) (c : ℕ)
        → m < length made
        → c < length made
        → made_addr c ≡ j ∷ made_addr m
        → child made m j ≡ some c
    made_up m j c lm lc a = elim (member_cases m lm) [
      | inl o ↦ elim (member_cases c lc) [
        | inl oc ↦
            child-made_old m j c
              (t.up m j c o oc (sym (old_addr c oc) ∙ a ∙ ap (λ b. j ∷ b) (old_addr m o)))
        | inr s ↦
            let x : k ∷ addr n ≡ j ∷ addr m =
              sym new_addr ∙ ap made_addr (sym s) ∙ a ∙ ap (λ b. j ∷ b) (old_addr m o) in
            let q : (k ≡ j) × (addr n ≡ addr m) = cons_inj x in
            let d : n ≡ m = t.apart n m l o q.1 in
            subst (λ i. child made m i ≡ some c) q.0
              (subst (λ i. child made i k ≡ some c) d (child-made_new ∙ ap some (sym s)))
      ]
      | inr s ↦
          let am : made_addr m ≡ k ∷ addr n = ap made_addr s ∙ new_addr in
          elim (member_cases c lc) [
            | inl oc ↦
                let (p, lp, ap') =
                  t.rooted c j (k ∷ addr n) oc (sym (old_addr c oc) ∙ a ∙ ap (λ b. j ∷ b) am) in
                absurd (vacant p lp ap')
            | inr sc ↦
                let x : k ∷ addr n ≡ j ∷ k ∷ addr n =
                  sym new_addr ∙ ap made_addr (sym sc) ∙ a ∙ ap (λ b. j ∷ b) am in
                absurd (omega (arith, ap length x))
          ]
    ]

    made_apart : (a b : ℕ) → a < length made → b < length made → made_addr a ≡ made_addr b → a ≡ b
    made_apart a b la lb e' = elim (member_cases a la) [
      | inl oa ↦ elim (member_cases b lb) [
        | inl ob ↦ t.apart a b oa ob (sym (old_addr a oa) ∙ e' ∙ old_addr b ob)
        | inr sb ↦ absurd (vacant a oa (sym (old_addr a oa) ∙ e' ∙ ap made_addr sb ∙ new_addr))
      ]
      | inr sa ↦ elim (member_cases b lb) [
        | inl ob ↦ absurd (vacant b ob (sym (old_addr b ob) ∙ sym e' ∙ ap made_addr sa ∙ new_addr))
        | inr sb ↦ sa ∙ sym sb
      ]
    ]

    made_rooted :
        (c : ℕ) (j : Str) (a : List Str)
        → c < length made
        → made_addr c ≡ j ∷ a
        → (m : ℕ) × (m < length made) × (made_addr m ≡ a)
    made_rooted c j a lc e' = elim (member_cases c lc) [
      | inl oc ↦
          let (m, lm, am) = t.rooted c j a oc (sym (old_addr c oc) ∙ e') in
          (m, omega (arith, length-made, lm), old_addr m lm ∙ am)
      | inr sc ↦
          let x : k ∷ addr n ≡ j ∷ a = sym new_addr ∙ ap made_addr (sym sc) ∙ e' in
          (n, omega (arith, length-made, l), old_addr n l ∙ (cons_inj x).1)
    ]

    made_leads :
        (m : ℕ) (j : Str) (q : ℕ)
        → m < length made
        → indexed made m j ≡ some q
        → (q < length made) × (made_addr q ≡ onto (parts j) (made_addr m))
    made_leads m j q lm ei = elim (member_cases m lm) [
      | inl o ↦
          let (lq, a) = t.leads m j q o (sym (indexed-made m j) ∙ ei) in
          (
            omega (arith, length-made, lq),
            old_addr q lq ∙ a ∙ ap (onto (parts j)) (sym (old_addr m o)),
          )
      | inr s ↦ absurd (cc (indexed_out h m j (omega (arith, s)), indexed-made m j, ei))
    ]

    pub enter_new : Entered h addr n k made (length h)
    enter_new = record {
      addr' = made_addr;
      grown = omega (arith, length-made);
      agrees = old_addr;
      tree = record {
        down = made_down;
        up = made_up;
        apart = made_apart;
        rooted = made_rooted;
        leads = made_leads;
      };
      within = omega (arith, length-made);
      address = new_addr;
      values = λ m lm. value_of-link (alloc h w) n k (length h) m ∙ value_of-alloc_lt h w m lm;
      indexes = indexed-made;
    }

    pub value_of-made : value_of made (length h) ≡ some w
    value_of-made = value_of-link (alloc h w) n k (length h) (length h) ∙ value_of-alloc_new h w
