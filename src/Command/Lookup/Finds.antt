-- ===== src/Command/Lookup/Finds.antt =====
-- What find_flag and find_command find.
use cmdr_cxx.Base.{
  ℕ, Bool, true, false, ◌||◌, Bool-cases, Option-cases, inl, inr, List, [], ◌∷◌, Option, none, some,
  Str, get_elem?, str_eq, if◌then◌else◌, Among, ◌≡◌, refl, sym, subst, ap, ◌∙◌,
}
use cmdr_cxx.Base.Maps.{Map, find}
use cmdr_cxx.Command.{Arg, Cmd}
use cmdr_cxx.Command.Titles.{member}
use cmdr_cxx.Command.Leads.{Leads}
use cmdr_cxx.Command.Add.{IsCmd}
use cmdr_cxx.Command.Lookup.{
  drop_switch, carries, extensive_find, find_titled, find_flag, find_flag_string,
}

module _ {A : Type 0} (title_short : A → Str) (title_aliases : A → List Str) where
  -- What an answer of the extensive search says.
  abbrev pub Extends : List A → Str → Map ℕ → Option ℕ → Type 0
  Extends all t m none =
      (key : Str) (p : ℕ) (a : A)
      → Among {A = Str × ℕ} (key, p) m
      → get_elem? all p ≡ some a
      → carries title_short title_aliases t a ≡ false
  Extends all t m (some p) =
      (key : Str) × (a : A) × Among {A = Str × ℕ} (key, p) m
      × (get_elem? all p ≡ some a)
      × (carries title_short title_aliases t a ≡ true)

  Extends-cons :
      (all : List A) (t : Str) (key : Str) (q : ℕ) (m : Map ℕ) (o : Option ℕ)
      → ((a : A) → get_elem? all q ≡ some a → carries title_short title_aliases t a ≡ false)
      → Extends all t m o
      → Extends all t ((key, q) ∷ m) o
  Extends-cons all t key q m none h e = λ k p a i g. elim i [
    | inl j ↦ h a (subst (λ x. get_elem? all x ≡ some a) (ap (λ x. x.1) j) g)
    | inr j ↦ e k p a j g
  ]
  Extends-cons all t key q m (some p) h (k, a, i, g, c) = (k, a, inr i, g, c)

  extensive_find-none :
      (all : List A) (t : Str) (key : Str) (p : ℕ) (m : Map ℕ)
      → get_elem? all p ≡ none
      → extensive_find title_short title_aliases all t ((key, p) ∷ m)
        ≡ extensive_find title_short title_aliases all t m
  unfolding extensive_find
  extensive_find-none all t key p m e = rw (e, extensive_find) refl

  extensive_find-some :
      (all : List A) (t : Str) (key : Str) (p : ℕ) (m : Map ℕ) (a : A)
      → get_elem? all p ≡ some a
      → extensive_find title_short title_aliases all t ((key, p) ∷ m) ≡ (
          if carries title_short title_aliases t a
          then some p
          else extensive_find title_short title_aliases all t m)
  unfolding extensive_find
  extensive_find-some all t key p m a e = rw (e, extensive_find) refl

  pub extensive_find-Extends :
      (all : List A) (t : Str) (m : Map ℕ)
      → Extends all t m (extensive_find title_short title_aliases all t m)
  unfolding extensive_find
  extensive_find-Extends all t [] = λ key p a i g. absurd i
  extensive_find-Extends all t ((key, p) ∷ m) =
      let rest = extensive_find-Extends all t m in
      elim (Option-cases (get_elem? all p)) [
        | inl e ↦
            subst (Extends all t ((key, p) ∷ m)) (sym (extensive_find-none all t key p m e))
              (Extends-cons all t key p m _ (λ a g. cc (e, g)) rest)
        | inr (a, e) ↦ elim (Bool-cases (carries title_short title_aliases t a)) [
          | inl c ↦
              subst (Extends all t ((key, p) ∷ m))
                (sym (
                  extensive_find-some all t key p m a e
                  ∙ ap (λ b. if b then some p else extensive_find title_short title_aliases all t m)
                      c))
                (key, a, inl refl, e, c)
          | inr c ↦
              subst (Extends all t ((key, p) ∷ m))
                (sym (
                  extensive_find-some all t key p m a e
                  ∙ ap (λ b. if b then some p else extensive_find title_short title_aliases all t m)
                      c))
                (Extends-cons all t key p m _
                  (λ b g.
                    subst (λ x. carries title_short title_aliases t x ≡ false)
                      (some_inj a b (sym e ∙ g)) c)
                  rest)
        ]
      ]
    where
      some_inj : (a b : A) → some a ≡ some b → a ≡ b
      some_inj a b e = cc e

  find_titled-found :
      (all : List A) (m : Map ℕ) (s t : Str) (b : Bool) (p : ℕ)
      → find s m ≡ some p
      → find_titled title_short title_aliases all m s t b ≡ some p
  unfolding find_titled
  find_titled-found all m s t b p e = rw (e, find_titled) refl

  find_titled-extensive :
      (all : List A) (m : Map ℕ) (s t : Str)
      → find s m ≡ none
      → find_titled title_short title_aliases all m s t true
        ≡ extensive_find title_short title_aliases all t m
  unfolding find_titled
  find_titled-extensive all m s t e = rw (e, find_titled) refl

or_left : (a b : Bool) → (a || false) ≡ true → (a || b) ≡ true
or_left true b e = refl
or_left false b e = cc e

or_right : (a b : Bool) → b ≡ true → (a || b) ≡ true
or_right true b e = refl
or_right false b e = e

-- All titles of an arg.
abbrev pub titles_of : Arg → List Str
titles_of a = a.title_long ∷ a.title_short ∷ a.title_aliases

-- What an answer of find_flag for the title t says of the command.
abbrev pub Finds : Cmd → Str → Option ℕ → Type 0
Finds c t none =
    (find t c.indexed_args ≡ none)
    × ((key : Str) (p : ℕ) (a : Arg)
        → Among {A = Str × ℕ} (key, p) c.indexed_args
        → get_elem? c.all_args p ≡ some a
        → member t (a.title_short ∷ a.title_aliases) ≡ false)
Finds c t (some p) = (a : Arg) × (get_elem? c.all_args p ≡ some a) × (member t (titles_of a) ≡ true)

Extends-Finds :
    (c : Cmd) (t : Str) (o : Option ℕ)
    → find t c.indexed_args ≡ none
    → Extends (λ a. a.title_short) (λ a. a.title_aliases) c.all_args t c.indexed_args o
    → Finds c t o
unfolding member
Extends-Finds c t none n e = (n, e)
Extends-Finds c t (some p) n (key, a, _, g, k) = (a, g, or_right (str_eq a.title_long t) _ k)

find_flag-found :
    (c : Cmd) (title : Str)
    → IsCmd c
    → Finds c (drop_switch (drop_switch title)) (find_flag c.all_args c.indexed_args title true)
unfolding find_flag Leads member
find_flag-found c title w =
    let s = drop_switch (drop_switch title) in
    elim (Option-cases (find s c.indexed_args)) [
      | inr (p, e) ↦
          let (a, g, k) = w.indexed s p e in
          subst (Finds c s)
            (sym (
              find_titled-found (λ a. a.title_short) (λ a. a.title_aliases) c.all_args
                c.indexed_args s s true p e))
            (a, g, or_left (str_eq a.title_long s) _ k)
      | inl e ↦
          subst (Finds c s)
            (sym (
              find_titled-extensive (λ a. a.title_short) (λ a. a.title_aliases) c.all_args
                c.indexed_args s s e))
            (Extends-Finds c s _ e (
              extensive_find-Extends (λ a. a.title_short) (λ a. a.title_aliases) c.all_args s
                c.indexed_args))
    ]

-- No arg of the command has the title.
abbrev pub Lacks : Cmd → Str → Type 0
Lacks c t = (p : ℕ) (a : Arg) → get_elem? c.all_args p ≡ some a → member t (titles_of a) ≡ false

Lacks-none : (c : Cmd) (t : Str) (o : Option ℕ) → Finds c t o → Lacks c t → o ≡ none
Lacks-none c t none f l = refl
Lacks-none c t (some p) (a, g, m) l = cc (m, l p a g)

-- In a sound registry the extensive find_flag, which drops up to two of the characters - and / in
-- front of the title, finds an arg of this command that has the rest as a whole, dots included, as
-- long or short title or as alias; where it finds none, no long title that was entered is that text,
-- and no entered arg has it otherwise; and if no arg of this command has the whole text as a title,
-- it finds none.
pub find_flag-Finds :
    (c : Cmd) (title : Str)
    → IsCmd c
    → let t = drop_switch (drop_switch title) in
      let found = find_flag c.all_args c.indexed_args title true in
      Finds c t found × (Lacks c t → found ≡ none)
find_flag-Finds c title w =
    let f = find_flag-found c title w in (f, Lacks-none c (drop_switch (drop_switch title)) _ f)

-- The two overloads agree on a title without - or / in front.
pub find_flag_overloads :
    (c : Cmd) (title : Str) (extensive : Bool)
    → drop_switch title ≡ title
    → find_flag_string c.all_args c.indexed_args title extensive
      ≡ find_flag c.all_args c.indexed_args title extensive
unfolding find_flag find_flag_string
find_flag_overloads c title extensive e =
    let d : drop_switch (drop_switch title) ≡ title = ap drop_switch e ∙ e in
    ap
      (λ s.
        find_titled (λ a. a.title_short) (λ a. a.title_aliases) c.all_args c.indexed_args
          (drop_switch (drop_switch title)) s extensive)
      (sym d)
