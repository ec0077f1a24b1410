-- ===== src/Command/Subcommands/Entered.antt =====
-- When add(cmd) throws, and what it enters. The titles are entered as those of an arg are.
use cmdr_cxx.Base.{
  ℕ, ◌<◌, false, Bool-cases, Option-cases, inl, inr, List, [], ◌∷◌, Option, none, some, Str, length,
  get_elem?, get_elem?-append_lt, get_elem?-append_length, is_empty, str_eq, if◌then◌else◌, ◌≡◌,
  ◌↔◌, refl, sym, subst, ap, ◌∙◌,
}
use cmdr_cxx.Base.Maps.{Map, find, insert, or_else, find-insert}
use cmdr_cxx.Command.{
  Arg, missing, Error, dup_short_flag_found, dup_alias_flag_found, enter_short, enter_aliases,
  enter_long,
}
use cmdr_cxx.Command.Titles.{
  member, Free, short_titles, find-enter_short, find-enter_long, enter_short_iff, enter_long_iff,
}
use cmdr_cxx.Command.Subcommands.{
  SubCmd, CmdList, CmdError, dup_short_cmd_found, dup_long_cmd_found, dup_alias_cmd_found, AddedCmd,
  grouped, enter_short_cmd, enter_cmd_aliases, enter_long_cmd, enter_cmd, finish_cmd, ended_cmd,
  add_cmd,
}

-- The arg with the titles of a command.
abbrev pub titled : SubCmd → Arg
titled a = record {
  title_long = a.title_long;
  title_short = a.title_short;
  title_aliases = a.title_aliases;
  group_name = [];
  toggle_group_name = [];
  default_value = missing;
  owner = none;
}

-- Two entries that leave the same map, and of which both throw or none.
Alike : Map ℕ × Option CmdError → Map ℕ × Option Error → Type 0
Alike (m, e) (n, f) = (m ≡ n) × ((e ≡ none) ↔ (f ≡ none))

both : (m : Map ℕ) (e : CmdError) (f : Error) → Alike (m, some e) (m, some f)
unfolding Alike
both m e f = (refl, (λ x. cc x, λ x. cc x))

aliases-Alike :
    (ts : List Str) (p : ℕ) (m : Map ℕ) → Alike (enter_cmd_aliases ts p m) (enter_aliases ts p m)
unfolding Alike enter_cmd_aliases enter_aliases
aliases-Alike [] p m = (refl, (λ x. refl, λ x. refl))
aliases-Alike (t ∷ ts) p m = elim (Option-cases (find t m)) [
  | inr (q, e) ↦
      rw (e, enter_cmd_aliases, enter_aliases)
        (both m (dup_alias_cmd_found t) (dup_alias_flag_found t))
  | inl e ↦ rw (e, enter_cmd_aliases, enter_aliases) (aliases-Alike ts p (insert t p m))
]

long-Alike :
    (a : SubCmd) (p : ℕ) (m : Map ℕ) → Alike (enter_long_cmd a p m) (enter_long (titled a) p m)
unfolding Alike enter_long_cmd enter_long
long-Alike a p m = elim (Option-cases (find a.title_long m)) [
  | inr (q, e) ↦ rw (e, enter_long_cmd, enter_long) (both m dup_long_cmd_found dup_short_flag_found)
  | inl e ↦
      rw (e, enter_long_cmd, enter_long) (aliases-Alike a.title_aliases p (insert a.title_long p m))
]

short-Alike :
    (a : SubCmd) (p : ℕ) (m : Map ℕ) → Alike (enter_short_cmd a p m) (enter_short (titled a) p m)
unfolding Alike enter_short_cmd enter_short
short-Alike a p m = elim (Bool-cases (is_empty a.title_short)) [
  | inl b ↦ rw (b, enter_short_cmd, enter_short) (refl, (λ x. refl, λ x. refl))
  | inr b ↦ elim (Option-cases (find a.title_short m)) [
    | inr (q, e) ↦
        rw (b, e, enter_short_cmd, enter_short) (both m dup_short_cmd_found dup_short_flag_found)
    | inl e ↦ rw (b, e, enter_short_cmd, enter_short) (refl, (λ x. refl, λ x. refl))
  ]
]

pair_of : {A B : Type 0} (r : A × Option B) → r.1 ≡ none → r ≡ (r.0, none)
pair_of r e = ap (λ x. (r.0, x)) e

module _ (self : ℕ) (c : CmdList) (a : SubCmd) where
  abbrev place : ℕ
  place = length c.all_commands

  -- What the commands are when all titles are entered.
  pub record CmdEntered (d : AddedCmd) : Type 0 where
    pub notified : d.notified ≡ some place
    pub kept : (i : ℕ) → i < place → get_elem? d.list.all_commands i ≡ get_elem? c.all_commands i
    pub there :
        get_elem? d.list.all_commands place ≡ some (record (grouped a) { owner = some self })
    pub last : d.list.last_added_command ≡ some place
    pub short_found :
        (t : Str)
        → find t d.list.short_commands
          ≡ (if member t (short_titles (titled a)) then some place else find t c.short_commands)
    pub long_found :
        (t : Str)
        → find t d.list.long_commands ≡ (
            if member t (a.title_long ∷ a.title_aliases)
            then some place
            else find t c.long_commands)
    pub indexed_found :
        (t : Str)
        → find t d.list.indexed_commands ≡ (
            if str_eq a.title_long t
            then some (or_else (find a.title_long c.indexed_commands) place)
            else find t c.indexed_commands)

  ended-error :
      (s l : Map ℕ × Option CmdError)
      → ((ended_cmd self c a s l).error ≡ none) ↔ ((s.1 ≡ none) × (l.1 ≡ none))
  ended-error (s, some e) l = (λ h. cc h, λ h. cc h.0)
  ended-error (s, none) (l, some e) = (λ h. cc h, λ h. cc h.1)
  ended-error (s, none) (l, none) = (λ h. (refl, refl), λ h. refl)

  abbrev shorts : Map ℕ × Option CmdError
  shorts = enter_short_cmd a place c.short_commands

  abbrev longs : Map ℕ × Option CmdError
  longs = enter_long_cmd a place c.long_commands

  add_cmd-valid : is_empty a.title_long ≡ false → add_cmd self c a ≡ ended_cmd self c a shorts longs
  unfolding add_cmd
  add_cmd-valid v = rw (v, add_cmd) refl

  ended-CmdEntered :
      (s l : Map ℕ)
      → ((t : Str)
          → find t s
            ≡ (if member t (short_titles (titled a)) then some place else find t c.short_commands))
      → ((t : Str)
          → find t l ≡ (
              if member t (a.title_long ∷ a.title_aliases)
              then some place
              else find t c.long_commands))
      → CmdEntered (ended_cmd self c a (s, none) (l, none))
  unfolding finish_cmd enter_cmd
  ended-CmdEntered s l f g = record {
    notified = refl;
    kept = λ i q. get_elem?-append_lt c.all_commands _ i q;
    there = get_elem?-append_length c.all_commands _;
    last = refl;
    short_found = f;
    long_found = g;
    indexed_found = λ t. find-insert a.title_long t place c.indexed_commands;
  }

  -- Adding a valid command throws nothing exactly if its short title is not taken and its long title
  -- and aliases are neither taken nor repeated. Then on_cmd_added is called with it and it is the
  -- last one added; the commands before it are kept, and it is behind them, with this command as its
  -- owner; in _short_commands and _long_commands its titles lead to it and every other title leads
  -- where it led; and in _indexed_commands its long title leads to it, unless that title led to
  -- another command before, which it then goes on to do, and every other title leads where it led.
  pub add_cmd-CmdEntered :
      is_empty a.title_long ≡ false
      → (((add_cmd self c a).error ≡ none) ↔ (
          Free (short_titles (titled a)) c.short_commands
          × Free (a.title_long ∷ a.title_aliases) c.long_commands))
        × ((add_cmd self c a).error ≡ none → CmdEntered (add_cmd self c a))
  unfolding Alike
  add_cmd-CmdEntered v =
      let e = add_cmd-valid v in
      let (ms, (i, j)) = short-Alike a place c.short_commands in
      let (ml, (k, m)) = long-Alike a place c.long_commands in
      let (x, y) = enter_short_iff (titled a) place c.short_commands in
      let (z, w) = enter_long_iff (titled a) place c.long_commands in
      let (f, g) = ended-error shorts longs in
      (
        (
          λ h. let (p, q) = f (ap (λ r. r.error) (sym e) ∙ h) in (x (i p), z (k q)),
          λ h. ap (λ r. r.error) e ∙ g (j (y h.0), m (w h.1)),
        ),
        λ h.
            let (p, q) = f (ap (λ r. r.error) (sym e) ∙ h) in
            subst CmdEntered
              (sym (
                e
                ∙ ap (λ r. ended_cmd self c a r longs) (pair_of shorts p)
                ∙ ap (ended_cmd self c a (shorts.0, none)) (pair_of longs q)))
              (ended-CmdEntered shorts.0 longs.0
                (λ t.
                  ap (find t) ms
                  ∙ find-enter_short (titled a) place c.short_commands _ t (pair_of _ (i p)))
                (λ t.
                  ap (find t) ml
                  ∙ find-enter_long (titled a) place c.long_commands _ t (pair_of _ (k q)))),
      )
