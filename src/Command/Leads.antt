-- ===== src/Command/Leads.antt =====
-- What the maps of titles point at: an arg that carries the title.
use cmdr_cxx.Base.{
  ℕ, true, false, List, [], ◌∷◌, ◌++◌, some, Str, length, get_elem?, get_elem?-lt,
  get_elem?-append_lt, get_elem?-append_length, is_empty, str_eq, str_eq_iff, if◌then◌else◌, ◌≡◌,
  refl, sym, subst, ap, ◌∙◌, arith, Option-cases, Bool-cases, inl, inr, ◌⊎◌,
}
use cmdr_cxx.Base.Maps.{Map, find, insert, or_else, find-insert}
use cmdr_cxx.Command.{Arg, enter_short, enter_aliases, enter_long}
use cmdr_cxx.Command.Titles.{
  member, short_titles, enter_aliases-some, enter_aliases-none, enter_long-some, enter_long-none,
  enter_short-empty, enter_short-none, short_titles-one,
}

-- Every entry of the map leads to an arg with that title.
unfoldable pub Leads : (Arg → List Str) → List Arg → Map ℕ → Type 0
Leads titles args m =
    (t : Str) (p : ℕ)
    → find t m ≡ some p
    → (a : Arg) × (get_elem? args p ≡ some a) × (member t (titles a) ≡ true)

-- Every entry is an old one, or one of the titles with the pointer p.
unfoldable pub Grows : List Str → ℕ → Map ℕ → Map ℕ → Type 0
Grows ts p m m' =
    (t : Str) (q : ℕ) → find t m' ≡ some q → (find t m ≡ some q) ⊎ ((q ≡ p) × (member t ts ≡ true))

pub Leads-Grows :
    (titles : Arg → List Str) (args : List Arg) (a : Arg) (m m' : Map ℕ)
    → Leads titles args m
    → Grows (titles a) (length args) m m'
    → Leads titles (args ++ a ∷ []) m'
unfolding Leads Grows
Leads-Grows titles args a m m' l g t p e = elim (g t p e) [
  | inl o ↦
      let (b, i, n) = l t p o in
      (b, get_elem?-append_lt args (a ∷ []) p (get_elem?-lt args p b i) ∙ i, n)
  | inr (q, n) ↦ (a, ap (get_elem? (args ++ a ∷ [])) q ∙ get_elem?-append_length args a, n)
]

pub Grows-refl : (ts : List Str) (p : ℕ) (m : Map ℕ) → Grows ts p m m
unfolding Grows
Grows-refl ts p m t q e = inl e

pub Grows-insert : (x : Str) (p : ℕ) (m : Map ℕ) → Grows (x ∷ []) p m (insert x p m)
unfolding Grows member
Grows-insert x p m t q e = elim (Bool-cases (str_eq x t)) [
  | inr b ↦ inl (
      sym (find-insert x t p m ∙ ap (λ c. if c then some (or_else (find x m) p) else find t m) b)
      ∙ e)
  | inl b ↦
      let i : some (or_else (find x m) p) ≡ some q =
        sym (find-insert x t p m ∙ ap (λ c. if c then some (or_else (find x m) p) else find t m) b)
        ∙ e in
      elim (Option-cases (find x m)) [
        | inl k ↦ inr (cc (i, k), ground (arith, b))
        | inr (r, k) ↦ inl (subst (λ y. find y m ≡ some q) ((str_eq_iff x t).0 b) (cc (i, k)))
      ]
]

pub enter_aliases-Grows :
    (ts : List Str) (p : ℕ) (m : Map ℕ) → Grows ts p m (enter_aliases ts p m).0
unfolding Grows member enter_aliases
enter_aliases-Grows [] p m t q e = inl e
enter_aliases-Grows (x ∷ ts) p m t q e = elim (Option-cases (find x m)) [
  | inr (r, k) ↦ inl (sym (ap (λ o. find t o.0) (enter_aliases-some x ts p m r k)) ∙ e)
  | inl k ↦
      elim (enter_aliases-Grows ts p (insert x p m) t q
        (sym (ap (λ o. find t o.0) (enter_aliases-none x ts p m k)) ∙ e)) [
          | inr (s, n) ↦ inr (s, ground (arith, n))
          | inl o ↦ elim (Grows-insert x p m t q o) [
            | inl o' ↦ inl o'
            | inr (s, n) ↦ inr (s, ground (arith, n))
          ]
        ]
]

pub enter_long-Grows :
    (a : Arg) (p : ℕ) (m : Map ℕ) → Grows (a.title_long ∷ a.title_aliases) p m (enter_long a p m).0
enter_long-Grows a p m = elim (Option-cases (find a.title_long m)) [
  | inr (q, k) ↦
      subst (Grows (a.title_long ∷ a.title_aliases) p m)
        (sym (ap (λ r. r.0) (enter_long-some a p m q k)))
        (Grows-refl (a.title_long ∷ a.title_aliases) p m)
  | inl k ↦
      subst (Grows (a.title_long ∷ a.title_aliases) p m)
        (sym (ap (λ r. r.0) (enter_long-none a p m k)))
        (enter_aliases-Grows (a.title_long ∷ a.title_aliases) p m)
]

enter_short-kept :
    (a : Arg) (p : ℕ) (m : Map ℕ) (q : ℕ)
    → is_empty a.title_short ≡ false
    → find a.title_short m ≡ some q
    → (enter_short a p m).0 ≡ m
unfolding enter_short
enter_short-kept a p m q b e = rw (b, e, enter_short) refl

pub enter_short-Grows :
    (a : Arg) (p : ℕ) (m : Map ℕ) → Grows (short_titles a) p m (enter_short a p m).0
enter_short-Grows a p m = elim (Bool-cases (is_empty a.title_short)) [
  | inl b ↦
      subst (Grows (short_titles a) p m) (sym (ap (λ r. r.0) (enter_short-empty a p m b)))
        (Grows-refl (short_titles a) p m)
  | inr b ↦ elim (Option-cases (find a.title_short m)) [
    | inr (q, k) ↦
        subst (Grows (short_titles a) p m) (sym (enter_short-kept a p m q b k))
          (Grows-refl (short_titles a) p m)
    | inl k ↦
        subst (λ ts. Grows ts p m (enter_short a p m).0) (sym (short_titles-one a b))
          (subst (Grows (a.title_short ∷ []) p m) (sym (ap (λ r. r.0) (enter_short-none a p m b k)))
            (enter_aliases-Grows (a.title_short ∷ []) p m))
  ]
]
