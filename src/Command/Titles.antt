-- ===== src/Command/Titles.antt =====
-- The titles that enter_aliases, enter_long and enter_short put into a map of titles.
use cmdr_cxx.Base.{
  ℕ, Bool, true, false, ◌||◌, List, [], ◌∷◌, none, some, Str, is_empty, str_eq, str_eq_iff,
  if◌then◌else◌, ◌≡◌, refl, sym, subst, ap, ◌∙◌, arith, Option-cases, Bool-cases, inl, inr, ◌↔◌,
}
use cmdr_cxx.Base.Maps.{Map, find, insert, or_else, find-insert}
use cmdr_cxx.Command.{
  Arg, dup_short_flag_found, dup_alias_flag_found, enter_short, enter_aliases, enter_long,
}

unfoldable pub member : Str → List Str → Bool
member t [] = false
member t (x ∷ xs) = str_eq x t || member t xs

-- No title of the list is in the map, or stands twice in the list.
abbrev pub Free : List Str → Map ℕ → Type 0
Free [] m = Unit
Free (t ∷ ts) m = (find t m ≡ none) × (member t ts ≡ false) × Free ts m

pub enter_aliases-some :
    (t : Str) (ts : List Str) (p : ℕ) (m : Map ℕ) (q : ℕ)
    → find t m ≡ some q
    → enter_aliases (t ∷ ts) p m ≡ (m, some (dup_alias_flag_found t))
unfolding enter_aliases
enter_aliases-some t ts p m q e = rw (e, enter_aliases) refl

pub enter_aliases-none :
    (t : Str) (ts : List Str) (p : ℕ) (m : Map ℕ)
    → find t m ≡ none
    → enter_aliases (t ∷ ts) p m ≡ enter_aliases ts p (insert t p m)
unfolding enter_aliases
enter_aliases-none t ts p m e = rw (e, enter_aliases) refl

either :
    {A : Type 0} (b c : Bool) (x y : A)
    → (if c then x else if b then x else y) ≡ (if b || c then x else y)
either true true x y = refl
either true false x y = refl
either false true x y = refl
either false false x y = refl

pub find-enter_aliases :
    (ts : List Str) (p : ℕ) (m m' : Map ℕ) (t : Str)
    → enter_aliases ts p m ≡ (m', none)
    → find t m' ≡ (if member t ts then some p else find t m)
unfolding enter_aliases member
find-enter_aliases [] p m m' t e = ap (λ r. find t r.0) (sym e)
find-enter_aliases (x ∷ ts) p m m' t e = elim (Option-cases (find x m)) [
  | inr (q, k) ↦ absurd (cc (enter_aliases-some x ts p m q k, e))
  | inl k ↦
      let i =
        find-enter_aliases ts p (insert x p m) m' t (sym (enter_aliases-none x ts p m k) ∙ e) in
      let j : find t (insert x p m) ≡ (if str_eq x t then some p else find t m) =
        find-insert x t p m ∙ ap (λ o. if str_eq x t then some (or_else o p) else find t m) k in
      i
      ∙ ap (λ o. if member t ts then some p else o) j
      ∙ either (str_eq x t) (member t ts) (some p) (find t m)
]

-- The entries succeed exactly if the titles are free.
Free-insert_to :
    (x : Str) (p : ℕ) (ts : List Str) (m : Map ℕ)
    → find x m ≡ none
    → Free ts (insert x p m)
    → (member x ts ≡ false) × Free ts m
unfolding member
Free-insert_to x p [] m k f = (refl, tt)
Free-insert_to x p (t ∷ ts) m k (a, b, f) =
    let (i, g) = Free-insert_to x p ts m k f in
    let j = find-insert x t p m in
    (ground (arith, str_eq_iff x t, str_eq_iff t x, i, j, a), (ground (arith, j, a), b, g))

Free-insert_from :
    (x : Str) (p : ℕ) (ts : List Str) (m : Map ℕ)
    → member x ts ≡ false
    → Free ts m
    → Free ts (insert x p m)
unfolding member
Free-insert_from x p [] m n f = tt
Free-insert_from x p (t ∷ ts) m n (a, b, f) =
    let n' : member x ts ≡ false = ground (arith, n) in
    let j = find-insert x t p m in
    (ground (arith, str_eq_iff x t, str_eq_iff t x, n, j, a), b, Free-insert_from x p ts m n' f)

pub enter_aliases_iff :
    (ts : List Str) (p : ℕ) (m : Map ℕ) → ((enter_aliases ts p m).1 ≡ none) ↔ Free ts m
unfolding enter_aliases
enter_aliases_iff [] p m = (λ _. tt, λ _. refl)
enter_aliases_iff (x ∷ ts) p m = elim (Option-cases (find x m)) [
  | inr (q, k) ↦
      let e = enter_aliases-some x ts p m q k in
      (λ h. absurd (cc (ap (λ r. r.1) e, h)), λ f. absurd (cc (f.0, k)))
  | inl k ↦
      let e = ap (λ r. r.1) (enter_aliases-none x ts p m k) in
      let i = enter_aliases_iff ts p (insert x p m) in
      (
        λ h. let (n, f) = Free-insert_to x p ts m k (i.0 (sym e ∙ h)) in (k, n, f),
        λ f. e ∙ i.1 (Free-insert_from x p ts m f.1 f.2),
      )
]

-- enter_long is the loop with the long title in front, but for the exception of that title.
pub enter_long-some :
    (a : Arg) (p : ℕ) (m : Map ℕ) (q : ℕ)
    → find a.title_long m ≡ some q
    → enter_long a p m ≡ (m, some dup_short_flag_found)
unfolding enter_long
enter_long-some a p m q e = rw (e, enter_long) refl

pub enter_long-none :
    (a : Arg) (p : ℕ) (m : Map ℕ)
    → find a.title_long m ≡ none
    → enter_long a p m ≡ enter_aliases (a.title_long ∷ a.title_aliases) p m
unfolding enter_long enter_aliases
enter_long-none a p m e = rw (e, enter_long, enter_aliases) refl

pub find-enter_long :
    (a : Arg) (p : ℕ) (m m' : Map ℕ) (t : Str)
    → enter_long a p m ≡ (m', none)
    → find t m' ≡ (if member t (a.title_long ∷ a.title_aliases) then some p else find t m)
find-enter_long a p m m' t e = elim (Option-cases (find a.title_long m)) [
  | inr (q, k) ↦ absurd (cc (enter_long-some a p m q k, e))
  | inl k ↦
      find-enter_aliases (a.title_long ∷ a.title_aliases) p m m' t
        (sym (enter_long-none a p m k) ∙ e)
]

pub enter_long_iff :
    (a : Arg) (p : ℕ) (m : Map ℕ)
    → ((enter_long a p m).1 ≡ none) ↔ Free (a.title_long ∷ a.title_aliases) m
enter_long_iff a p m = elim (Option-cases (find a.title_long m)) [
  | inr (q, k) ↦
      (λ h. absurd (cc (ap (λ r. r.1) (enter_long-some a p m q k), h)), λ f. absurd (cc (f.0, k)))
  | inl k ↦
      let e = ap (λ r. r.1) (enter_long-none a p m k) in
      let i = enter_aliases_iff (a.title_long ∷ a.title_aliases) p m in
      (λ h. i.0 (sym e ∙ h), λ f. e ∙ i.1 f)
]

-- The short titles that an arg claims.
abbrev pub short_titles : Arg → List Str
short_titles a = if is_empty a.title_short then [] else a.title_short ∷ []

pub short_titles-empty : (a : Arg) → is_empty a.title_short ≡ true → short_titles a ≡ []
short_titles-empty a b = ap (λ c. if c then [] else a.title_short ∷ []) b

pub short_titles-one :
    (a : Arg) → is_empty a.title_short ≡ false → short_titles a ≡ a.title_short ∷ []
short_titles-one a b = ap (λ c. if c then [] else a.title_short ∷ []) b

pub enter_short-empty :
    (a : Arg) (p : ℕ) (m : Map ℕ) → is_empty a.title_short ≡ true → enter_short a p m ≡ (m, none)
unfolding enter_short
enter_short-empty a p m b = rw (b, enter_short) refl

pub enter_short-some :
    (a : Arg) (p : ℕ) (m : Map ℕ) (q : ℕ)
    → is_empty a.title_short ≡ false
    → find a.title_short m ≡ some q
    → (enter_short a p m).1 ≡ some dup_short_flag_found
unfolding enter_short
enter_short-some a p m q b e = rw (b, e, enter_short) refl

pub enter_short-none :
    (a : Arg) (p : ℕ) (m : Map ℕ)
    → is_empty a.title_short ≡ false
    → find a.title_short m ≡ none
    → enter_short a p m ≡ enter_aliases (a.title_short ∷ []) p m
unfolding enter_short enter_aliases
enter_short-none a p m b e = rw (b, e, enter_short, enter_aliases) refl

pub find-enter_short :
    (a : Arg) (p : ℕ) (m m' : Map ℕ) (t : Str)
    → enter_short a p m ≡ (m', none)
    → find t m' ≡ (if member t (short_titles a) then some p else find t m)
unfolding member
find-enter_short a p m m' t e = elim (Bool-cases (is_empty a.title_short)) [
  | inl b ↦
      ap (λ r. find t r.0) (sym e ∙ enter_short-empty a p m b)
      ∙ ap (λ ts. if member t ts then some p else find t m) (sym (short_titles-empty a b))
  | inr b ↦ elim (Option-cases (find a.title_short m)) [
    | inr (q, k) ↦ absurd (cc (enter_short-some a p m q b k, ap (λ r. r.1) e))
    | inl k ↦
        find-enter_aliases (a.title_short ∷ []) p m m' t (sym (enter_short-none a p m b k) ∙ e)
        ∙ ap (λ ts. if member t ts then some p else find t m) (sym (short_titles-one a b))
  ]
]

pub enter_short_iff :
    (a : Arg) (p : ℕ) (m : Map ℕ) → ((enter_short a p m).1 ≡ none) ↔ Free (short_titles a) m
enter_short_iff a p m = elim (Bool-cases (is_empty a.title_short)) [
  | inl b ↦ (
    λ h. subst (λ ts. Free ts m) (sym (short_titles-empty a b)) tt,
    λ f. ap (λ r. r.1) (enter_short-empty a p m b),
  )
  | inr b ↦
      let one = short_titles-one a b in
      elim (Option-cases (find a.title_short m)) [
        | inr (q, k) ↦ (
          λ h. absurd (cc (enter_short-some a p m q b k, h)),
          λ f. absurd (cc ((subst (λ ts. Free ts m) one f).0, k)),
        )
        | inl k ↦
            let e = ap (λ r. r.1) (enter_short-none a p m b k) in
            let i = enter_aliases_iff (a.title_short ∷ []) p m in
            (
              λ h. subst (λ ts. Free ts m) (sym one) (i.0 (sym e ∙ h)),
              λ f. e ∙ i.1 (subst (λ ts. Free ts m) one f),
            )
      ]
]
