-- ===== src/Options/Writes.antt =====
-- The store behind the parsing, told as a dictionary.
use cmdr_cxx.Base.{
  ℕ, Bool, true, false, Bool-cases, inl, inr, List, [], ◌∷◌, ◌++◌, append_assoc, Option, none, some,
  Str, str_eq, str_eq_iff, is_prefix, is_prefix-append, if◌then◌else◌, ◌>>=◌, ◌≡◌, refl, sym, subst,
  ap, ◌∙◌,
}
use cmdr_cxx.Store.{Heap, set_raw, set_raw_p, get_raw, prefixed}
use cmdr_cxx.Store.Laws.{IsStore}
use cmdr_cxx.Store.Dictionary.{set_all, look_up, set_all_from}
use cmdr_cxx.Options.{MatchedArg, toggles, reset_group, reset_toggles, on_arg_matched, all_matched}

bind_assoc :
    {A B C : Type 0} (o : Option A) (f : A → Option B) (g : B → Option C)
    → ((o >>= f) >>= g) ≡ (o >>= λ a. f a >>= g)
bind_assoc none f g = refl
bind_assoc (some a) f g = refl

bind_ext :
    {A B : Type 0} (o : Option A) {f g : A → Option B}
    → ((a : A) → f a ≡ g a)
    → (o >>= f) ≡ (o >>= g)
bind_ext none h = refl
bind_ext (some a) h = h a

module _ {V : Type 0} (blank off : V) (of_text : Str → V) where
  -- The keys that are written for the group, and those for a matched arg, in their order.
  abbrev pub group_writes : Str → List Str → List (Str × V)
  group_writes cck [] = []
  group_writes cck (o ∷ group) = (prefixed cck o, off) ∷ group_writes cck group

  abbrev toggle_writes : MatchedArg → List (Str × V)
  toggle_writes a =
      group_writes a.key a.group ++ (prefixed a.key a.toggle_group_name, of_text a.title_long) ∷ []

  abbrev pub writes : MatchedArg → V → List (Str × V)
  writes a value = (a.key, value) ∷ (if toggles a then toggle_writes a else [])

  abbrev pub all_writes : List (MatchedArg × V) → List (Str × V)
  all_writes [] = []
  all_writes ((a, value) ∷ args) = writes a value ++ all_writes args

  set_all-append :
      (h : Heap V) (xs ys : List (Str × V))
      → set_all blank h (xs ++ ys) ≡ (set_all blank h xs >>= λ h1. set_all blank h1 ys)
  unfolding set_all
  set_all-append h [] ys = refl
  set_all-append h ((k, v) ∷ xs) ys =
      bind_ext (set_raw blank h 0 k v) (λ r. set_all-append r.0 xs ys)
      ∙ sym (bind_assoc (set_raw blank h 0 k v) (λ r. set_all blank r.0 xs) _)

  reset_group-set_all :
      (h : Heap V) (cck : Str) (group : List Str)
      → reset_group blank off of_text h cck group ≡ set_all blank h (group_writes cck group)
  unfolding reset_group set_all set_raw_p
  reset_group-set_all h cck [] = refl
  reset_group-set_all h cck (o ∷ group) =
      bind_ext (set_raw blank h 0 (prefixed cck o) off) (λ r. reset_group-set_all r.0 cck group)

  reset_toggles-set_all :
      (h : Heap V) (a : MatchedArg)
      → reset_toggles blank off of_text h a ≡ set_all blank h (toggle_writes a)
  unfolding reset_toggles set_all set_raw_p
  reset_toggles-set_all h a =
      ap
        (λ o. o >>= λ h1.
          set_raw blank h1 0 (prefixed a.key a.toggle_group_name) (of_text a.title_long) >>= λ r.
          some r.0)
        (reset_group-set_all h a.key a.group)
      ∙ sym (
          set_all-append h (group_writes a.key a.group)
            ((prefixed a.key a.toggle_group_name, of_text a.title_long) ∷ []))

  toggled-set_all :
      (h : Heap V) (a : MatchedArg) (b : Bool)
      → elim b [ true ↦ reset_toggles blank off of_text h a | false ↦ some h ]
        ≡ set_all blank h (if b then toggle_writes a else [])
  unfolding set_all
  toggled-set_all h a true = reset_toggles-set_all h a
  toggled-set_all h a false = refl

  on_arg_matched-set_all :
      (h : Heap V) (a : MatchedArg) (value : V)
      → on_arg_matched blank off of_text h a value ≡ set_all blank h (writes a value)
  unfolding on_arg_matched set_all
  on_arg_matched-set_all h a value =
      bind_ext (set_raw blank h 0 a.key value) (λ r. toggled-set_all r.0 a (toggles a))

  all_matched-set_all :
      (h : Heap V) (args : List (MatchedArg × V))
      → all_matched blank off of_text h args ≡ set_all blank h (all_writes args)
  unfolding all_matched set_all
  all_matched-set_all h [] = refl
  all_matched-set_all h ((a, value) ∷ args) =
      ap (λ o. o >>= λ h1. all_matched blank off of_text h1 args) (on_arg_matched-set_all h a value)
      ∙ bind_ext (set_all blank h (writes a value)) (λ h1. all_matched-set_all h1 args)
      ∙ sym (set_all-append h (writes a value) (all_writes args))

  -- Whatever args were matched, in whatever order, on_arg_matched ends for all of them at a store,
  -- and the store then answers each key with what was written last: by a matched arg its value under
  -- its own key, and by a toggle flag the values of the group.
  pub all_matched-look_up :
      (h : Heap V) (args : List (MatchedArg × V))
      → IsStore h
      → (h' : Heap V) × (all_matched blank off of_text h args ≡ some h')
        × IsStore h'
        × ((j : Str) → get_raw blank h' 0 j ≡ look_up (get_raw blank h 0) (all_writes args) j)
  all_matched-look_up h args i =
      let (h', e, k, g) = set_all_from blank h (all_writes args) i in
      (h', all_matched-set_all h args ∙ e, k, g)

  -- No write goes to the key.
  abbrev Untouched : Str → List (Str × V) → Type 0
  Untouched j [] = Unit
  Untouched j ((k, v) ∷ kvs) = (str_eq k j ≡ false) × Untouched j kvs

  look_up-Untouched :
      (d : Str → V) (kvs : List (Str × V)) (j : Str) → Untouched j kvs → look_up d kvs j ≡ d j
  unfolding look_up
  look_up-Untouched d [] j u = refl
  look_up-Untouched d ((k, v) ∷ kvs) j (e, u) =
      look_up-Untouched (λ i. if str_eq k i then v else d i) kvs j u
      ∙ ap (λ b. if b then v else d j) e

  prefixed_other :
      (c : ℕ) (key o j : Str)
      → is_prefix ((c ∷ key) ++ b'.' ∷ []) j ≡ false
      → str_eq (prefixed (c ∷ key) o) j ≡ false
  unfolding prefixed
  prefixed_other c key o j e = elim (Bool-cases (str_eq (prefixed (c ∷ key) o) j)) [
    | inr b ↦ b
    | inl b ↦
        let d : (c ∷ key) ++ b'.' ∷ o ≡ j = (str_eq_iff (prefixed (c ∷ key) o) j).0 b in
        cc (
          e,
          ap (is_prefix ((c ∷ key) ++ b'.' ∷ [])) (append_assoc (c ∷ key) (b'.' ∷ []) o ∙ d),
          is_prefix-append ((c ∷ key) ++ b'.' ∷ []) o,
        )
  ]

  Untouched-append :
      (j : Str) (xs ys : List (Str × V)) → Untouched j xs → Untouched j ys → Untouched j (xs ++ ys)
  Untouched-append j [] ys a b = b
  Untouched-append j ((k, v) ∷ xs) ys (e, a) b = (e, Untouched-append j xs ys a b)

  group-Untouched :
      (c : ℕ) (key : Str) (group : List Str) (j : Str)
      → is_prefix ((c ∷ key) ++ b'.' ∷ []) j ≡ false
      → Untouched j (group_writes (c ∷ key) group)
  group-Untouched c key [] j e = tt
  group-Untouched c key (o ∷ group) j e =
      (prefixed_other c key o j e, group-Untouched c key group j e)

  Untouched-if :
      (b : Bool) (j : Str) (xs : List (Str × V))
      → Untouched j xs
      → Untouched j (if b then xs else [])
  Untouched-if true j xs u = u
  Untouched-if false j xs u = tt

  toggle_writes-Untouched :
      (c : ℕ) (key : Str) (a : MatchedArg) (j : Str)
      → a.key ≡ c ∷ key
      → is_prefix (a.key ++ b'.' ∷ []) j ≡ false
      → Untouched j (toggle_writes a)
  toggle_writes-Untouched c key a j k p =
      let q : is_prefix ((c ∷ key) ++ b'.' ∷ []) j ≡ false =
        subst (λ x. is_prefix (x ++ b'.' ∷ []) j ≡ false) k p in
      Untouched-append j (group_writes a.key a.group) _
        (subst (λ x. Untouched j (group_writes x a.group)) (sym k)
          (group-Untouched c key a.group j q))
        (
          subst (λ x. str_eq (prefixed x a.toggle_group_name) j ≡ false) (sym k)
              (prefixed_other c key a.toggle_group_name j q),
          tt,
        )

  -- At a store a matched arg with a key that is not empty, also one of a toggle group, leaves every
  -- option alone that is neither its own nor one below it.
  pub on_arg_matched_keeps :
      (h : Heap V) (a : MatchedArg) (value : V) (c : ℕ) (key j : Str)
      → IsStore h
      → a.key ≡ c ∷ key
      → str_eq a.key j ≡ false
      → is_prefix (a.key ++ b'.' ∷ []) j ≡ false
      → (h' : Heap V) × (on_arg_matched blank off of_text h a value ≡ some h')
        × (get_raw blank h' 0 j ≡ get_raw blank h 0 j)
  on_arg_matched_keeps h a value c key j i k e p =
      let (h', d, _, g) = set_all_from blank h (writes a value) i in
      (
        h',
        on_arg_matched-set_all h a value ∙ d,
        g j
            ∙ look_up-Untouched (get_raw blank h 0) (writes a value) j (
              e,
              Untouched-if (toggles a) j (toggle_writes a) (toggle_writes-Untouched c key a j k p),
            ),
      )
