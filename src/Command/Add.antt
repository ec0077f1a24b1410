-- ===== src/Command/Add.antt =====
-- cmd::add(arg) as a whole: when it throws, what it enters, and that it keeps the registry sound.
use cmdr_cxx.Base.{
  ℕ, ◌<◌, true, false, List, [], ◌∷◌, ◌++◌, Option, none, some, Str, length, get_elem?,
  get_elem?-append_lt, get_elem?-append_length, is_empty, str_eq, if◌then◌else◌, ◌≡◌, refl, sym,
  subst, ap, ◌∙◌, Option-cases, Bool-cases, inl, inr, ◌↔◌,
}
use cmdr_cxx.Base.Maps.{Map, find, insert, or_else, find-insert}
use cmdr_cxx.Command.{
  DefaultValue, missing, of_bool, of_other, Arg, Cmd, Error, stored, empty_cmd, enter_arg,
  enter_short, enter_long, enter_toggle, finish, add_arg,
}
use cmdr_cxx.Command.Titles.{
  member, Free, short_titles, find-enter_short, find-enter_long, enter_short_iff, enter_long_iff,
}
use cmdr_cxx.Command.Leads.{
  Leads, Grows, Leads-Grows, Grows-refl, Grows-insert, enter_long-Grows, enter_short-Grows,
}

-- The titles of an arg for _long_args.
abbrev pub long_titles : Arg → List Str
long_titles a = a.title_long ∷ a.title_aliases

-- A reading that does not see the toggle groups.
Blind : {B : Type 0} → (Cmd → B) → Type 0
Blind g =
    (c : Cmd) (h : Map Str) (t : Map (List ℕ))
    → g (record c { hit_toggle_groups = h; toggle_groups = t }) ≡ g c

read-enter_toggle :
    {B : Type 0} (g : Cmd → B) (b : Blind g) (a : Arg) (p : ℕ) (c : Cmd) (d : DefaultValue)
    → a.default_value ≡ d
    → g (enter_toggle a p c) ≡ g c
unfolding Blind enter_toggle
read-enter_toggle g b a p c missing e = rw (e, enter_toggle) refl
read-enter_toggle g b a p c of_other e = rw (e, enter_toggle) refl
read-enter_toggle g b a p c (of_bool v) e = elim (Bool-cases (is_empty a.toggle_group_name)) [
  | inl k ↦ rw (e, k, enter_toggle) refl
  | inr k ↦ rw (e, k, enter_toggle) (b c _ _)
]

add_invalid :
    (self : ℕ) (c : Cmd) (a : Arg)
    → is_empty a.title_long ≡ true
    → add_arg self c a ≡ record { cmd = c; error = none; notified = none }
unfolding add_arg
add_invalid self c a b = rw (b, add_arg) refl

module _ (self : ℕ) (c : Cmd) (a : Arg) (v : is_empty a.title_long ≡ false) where
  abbrev pub place : ℕ
  place = length c.all_args

  abbrev short : Map ℕ × Option Error
  short = enter_short a place c.short_args

  abbrev long : Map ℕ × Option Error
  long = enter_long a place c.long_args

  abbrev all_entered : Cmd
  all_entered = record (enter_arg c a) { short_args = short.0; long_args = long.0 }

  add_short :
      (e : Error)
      → short.1 ≡ some e
      → add_arg self c a ≡ record {
        cmd = record (enter_arg c a) { short_args = short.0 };
        error = some e;
        notified = none;
      }
  unfolding add_arg
  add_short e s = rw (v, s, add_arg) refl

  add_long :
      (e : Error)
      → short.1 ≡ none
      → long.1 ≡ some e
      → add_arg self c a ≡ record { cmd = all_entered; error = some e; notified = none }
  unfolding add_arg
  add_long e s l = rw (v, s, l, add_arg) refl

  add_done :
      short.1 ≡ none
      → long.1 ≡ none
      → add_arg self c a
        ≡ record { cmd = finish self c a all_entered; error = none; notified = some place }
  unfolding add_arg
  add_done s l = rw (v, s, l, add_arg) refl

  finish-read :
      {B : Type 0} (g : Cmd → B) (b : Blind g)
      → g (enter_toggle (stored a) place all_entered) ≡ g all_entered
  finish-read g b = read-enter_toggle g b (stored a) place all_entered (stored a).default_value refl

  finish-short : (finish self c a all_entered).short_args ≡ short.0
  unfolding finish Blind
  finish-short = finish-read (λ d. d.short_args) (λ d h t. refl)

  finish-long : (finish self c a all_entered).long_args ≡ long.0
  unfolding finish Blind
  finish-long = finish-read (λ d. d.long_args) (λ d h t. refl)

  finish-indexed :
      (finish self c a all_entered).indexed_args ≡ insert a.title_long place c.indexed_args
  unfolding finish Blind enter_arg
  finish-indexed = finish-read (λ d. d.indexed_args) (λ d h t. refl)

  -- For a valid arg, add throws nothing exactly if the short title is not taken and the long title and the aliases
  -- are not taken and all different.
  pub add_arg_iff :
      ((add_arg self c a).error ≡ none)
      ↔ (Free (short_titles a) c.short_args × Free (long_titles a) c.long_args)
  add_arg_iff =
      let i = enter_short_iff a place c.short_args in
      let j = enter_long_iff a place c.long_args in
      elim (Option-cases short.1) [
        | inr (e, s) ↦
            (λ h. absurd (cc (ap (λ r. r.error) (add_short e s), h)), λ f. absurd (cc (s, i.1 f.0)))
        | inl s ↦ elim (Option-cases long.1) [
          | inr (e, l) ↦ (
            λ h. absurd (cc (ap (λ r. r.error) (add_long e s l), h)),
            λ f. absurd (cc (l, j.1 f.1)),
          )
          | inl l ↦ (λ h. (i.0 s, j.0 l), λ f. ap (λ r. r.error) (add_done s l))
        ]
      ]

-- What a successful add of `a` at the command `self` means for the lookups: `d` is the command
-- after it.
pub record Registered (self : ℕ) (c : Cmd) (a : Arg) (d : Cmd) : Type 0 where
  pub kept : (i : ℕ) → i < length c.all_args → get_elem? d.all_args i ≡ get_elem? c.all_args i
  pub there :
      get_elem? d.all_args (length c.all_args) ≡ some (record (stored a) { owner = some self })
  pub short_found :
      (t : Str)
      → find t d.short_args
        ≡ (if member t (short_titles a) then some (length c.all_args) else find t c.short_args)
  pub long_found :
      (t : Str)
      → find t d.long_args
        ≡ (if member t (long_titles a) then some (length c.all_args) else find t c.long_args)
  pub indexed_found :
      (t : Str)
      → find t d.indexed_args ≡ (
          if str_eq a.title_long t
          then some (or_else (find a.title_long c.indexed_args) (length c.all_args))
          else find t c.indexed_args)
  pub last : d.last_added_arg ≡ some (length c.all_args)

pair_eta : {A : Type 0} {B : Type 0} (r : A × B) (b : B) → r.1 ≡ b → r ≡ (r.0, b)
pair_eta r b e = ap (λ x. (r.0, x)) e

finish-Registered :
    (self : ℕ) (c : Cmd) (a : Arg) (v : is_empty a.title_long ≡ false)
    → (short self c a v).1 ≡ none
    → (long self c a v).1 ≡ none
    → Registered self c a (finish self c a (all_entered self c a v))
unfolding finish
finish-Registered self c a v s l = record {
  kept = λ i q. get_elem?-append_lt c.all_args _ i q;
  there = get_elem?-append_length c.all_args _;
  short_found = λ t.
      ap (find t) (finish-short self c a v)
      ∙ find-enter_short a (length c.all_args) c.short_args _ t (pair_eta _ none s);
  long_found = λ t.
      ap (find t) (finish-long self c a v)
      ∙ find-enter_long a (length c.all_args) c.long_args _ t (pair_eta _ none l);
  indexed_found = λ t.
      ap (find t) (finish-indexed self c a v)
      ∙ find-insert a.title_long t (length c.all_args) c.indexed_args;
  last = refl;
}

-- A valid arg whose titles are free is entered: no exception, on_arg_added is called with it, all
-- its titles lead to it, and every other title leads where it led.
pub add_arg-Registered :
    (self : ℕ) (c : Cmd) (a : Arg)
    → is_empty a.title_long ≡ false
    → Free (short_titles a) c.short_args
    → Free (long_titles a) c.long_args
    → ((add_arg self c a).error ≡ none)
      × ((add_arg self c a).notified ≡ some (length c.all_args))
      × Registered self c a (add_arg self c a).cmd
add_arg-Registered self c a v f g =
    let s = (enter_short_iff a (length c.all_args) c.short_args).1 f in
    let l = (enter_long_iff a (length c.all_args) c.long_args).1 g in
    let e = add_done self c a v s l in
    (
      ap (λ r. r.error) e,
      ap (λ r. r.notified) e,
      subst (λ r. Registered self c a r.cmd) (sym e) (finish-Registered self c a v s l),
    )

-- The registry is sound: each map of titles leads to args that carry the titles.
pub record IsCmd (c : Cmd) : Type 0 where
  pub indexed : Leads (λ a. a.title_long ∷ []) c.all_args c.indexed_args
  pub shorts : Leads short_titles c.all_args c.short_args
  pub longs : Leads long_titles c.all_args c.long_args

-- Three maps that grow by the titles of the arg behind all_args.
IsCmd-grown :
    (c : Cmd) (x : Arg) (d : Cmd)
    → IsCmd c
    → d.all_args ≡ c.all_args ++ x ∷ []
    → Grows (x.title_long ∷ []) (length c.all_args) c.indexed_args d.indexed_args
    → Grows (short_titles x) (length c.all_args) c.short_args d.short_args
    → Grows (long_titles x) (length c.all_args) c.long_args d.long_args
    → IsCmd d
IsCmd-grown c x d w e g h k = record {
  indexed =
      subst (λ l. Leads (λ a. a.title_long ∷ []) l d.indexed_args) (sym e)
        (Leads-Grows (λ a. a.title_long ∷ []) c.all_args x _ _ w.indexed g);
  shorts =
      subst (λ l. Leads short_titles l d.short_args) (sym e)
        (Leads-Grows short_titles c.all_args x _ _ w.shorts h);
  longs =
      subst (λ l. Leads long_titles l d.long_args) (sym e)
        (Leads-Grows long_titles c.all_args x _ _ w.longs k);
}

pub empty_cmd-IsCmd : IsCmd empty_cmd
unfolding Leads find
empty_cmd-IsCmd = record { indexed = λ t p e. cc e; shorts = λ t p e. cc e; longs = λ t p e. cc e }

-- add keeps the registry sound, whether it enters the arg, refuses it as not valid, or throws
-- with a part of the titles entered.
pub add_arg-IsCmd : (self : ℕ) (c : Cmd) (a : Arg) → IsCmd c → IsCmd (add_arg self c a).cmd
unfolding add_arg enter_arg stored finish
add_arg-IsCmd self c a w =
    let p = length c.all_args in
    let gi = Grows-insert a.title_long p c.indexed_args in
    let gs = enter_short-Grows a p c.short_args in
    let gl = enter_long-Grows a p c.long_args in
    elim (Bool-cases (is_empty a.title_long)) [
      | inl b ↦ subst (λ r. IsCmd r.cmd) (sym (add_invalid self c a b)) w
      | inr v ↦ elim (Option-cases (short self c a v).1) [
        | inr (e, s) ↦
            subst (λ r. IsCmd r.cmd) (sym (add_short self c a v e s))
              (IsCmd-grown c (stored a) _ w refl gi gs (Grows-refl _ p c.long_args))
        | inl s ↦ elim (Option-cases (long self c a v).1) [
          | inr (e, l) ↦
              subst (λ r. IsCmd r.cmd) (sym (add_long self c a v e s l))
                (IsCmd-grown c (stored a) _ w refl gi gs gl)
          | inl l ↦
              subst (λ r. IsCmd r.cmd) (sym (add_done self c a v s l))
                (IsCmd-grown c (record (stored a) { owner = some self }) _ w refl
                  (subst (Grows _ p c.indexed_args) (sym (finish-indexed self c a v)) gi)
                  (subst (Grows _ p c.short_args) (sym (finish-short self c a v)) gs)
                  (subst (Grows _ p c.long_args) (sym (finish-long self c a v)) gl))
        ]
      ]
    ]
