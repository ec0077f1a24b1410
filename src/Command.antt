-- ===== src/Command.antt =====
-- The registry of flags of one command: cmd::add(arg) of
-- libs/cmdr11/include/cmdr11/cmdr_cmd_inl.h with the fields of cmdr_cmd.hh and cmdr_arg.hh. A
-- pointer to an arg is its place in _all_args.
pub mod Titles
pub mod Leads
pub mod Add
pub mod Subcommands
pub mod Lookup
mod Tests
use cmdr_cxx.Base.{
  ℕ, Bool, true, false, not, ◌&&◌, ◌||◌, List, [], ◌∷◌, ◌++◌, Option, none, some, Str, codes,
  length, is_empty, str_eq, if◌then◌else◌,
}
use cmdr_cxx.Base.Maps.{Map, find, insert, assign, or_else}

-- default_value(): not there, a bool, or a value of another type.
pub data DefaultValue : Type 0 where
  missing : DefaultValue
  of_bool : Bool → DefaultValue
  of_other : DefaultValue

pub record Arg : Type 0 where
  pub title_long : Str
  pub title_short : Str
  pub title_aliases : List Str
  pub group_name : Str
  pub toggle_group_name : Str
  pub default_value : DefaultValue
  pub owner : Option ℕ

pub record Cmd : Type 0 where
  pub all_args : List Arg
  pub grouped_args : Map (List ℕ)
  pub indexed_args : Map ℕ
  pub short_args : Map ℕ
  pub long_args : Map ℕ
  pub hit_toggle_groups : Map Str
  pub toggle_groups : Map (List ℕ)
  pub last_added_arg : Option ℕ

pub data Error : Type 0 where
  dup_short_flag_found : Error
  dup_alias_flag_found : Str → Error

-- What add leaves: the command, the exception that it throws, and the arg that on_arg_added is
-- called with.
pub record Added : Type 0 where
  pub cmd : Cmd
  pub error : Option Error
  pub notified : Option ℕ

abbrev unsorted_group : Str
unsorted_group = codes "1230.Unsorted"

-- cmd()
abbrev pub empty_cmd : Cmd
empty_cmd = record {
  all_args = [];
  grouped_args = (unsorted_group, []) ∷ [];
  indexed_args = [];
  short_args = [];
  long_args = [];
  hit_toggle_groups = [];
  toggle_groups = [];
  last_added_arg = none;
}

-- `emplace(key, {})` where it is missing, then `[key].push_back(p)`
pub append_to : Str → ℕ → Map (List ℕ) → Map (List ℕ)
unfolding find assign
append_to key p m = assign key (or_else (find key m) [] ++ p ∷ []) m

-- gn
pub group_of : Arg → Str
group_of a =
    if is_empty a.group_name
    then (if is_empty a.toggle_group_name then unsorted_group else a.toggle_group_name)
    else a.group_name

-- The arg in _all_args, before its owner is set.
pub stored : Arg → Arg
unfolding group_of
stored a = record a {
  group_name = group_of a;
  default_value = elim a.default_value [
    | missing ↦ of_bool false
    | of_bool b ↦ of_bool b
    | of_other ↦ of_other
  ];
}

-- The entry in _short_args.
pub enter_short : Arg → ℕ → Map ℕ → Map ℕ × Option Error
unfolding find insert
enter_short a p m = if is_empty a.title_short then (m, none) else elim (find a.title_short m) [
  | some q ↦ (m, some dup_short_flag_found)
  | none ↦ (insert a.title_short p m, none)
]

-- The loop over the aliases.
pub enter_aliases : List Str → ℕ → Map ℕ → Map ℕ × Option Error
unfolding find insert
enter_aliases [] p m = (m, none)
enter_aliases (t ∷ ts) p m = elim (find t m) [
  | some q ↦ (m, some (dup_alias_flag_found t))
  | none ↦ enter_aliases ts p (insert t p m)
]

-- The entries in _long_args. A long title that is there throws dup_short_flag_found, too.
pub enter_long : Arg → ℕ → Map ℕ → Map ℕ × Option Error
unfolding enter_aliases
enter_long a p m = elim (find a.title_long m) [
  | some q ↦ (m, some dup_short_flag_found)
  | none ↦ enter_aliases a.title_aliases p (insert a.title_long p m)
]

-- The part for toggle groups.
pub enter_toggle : Arg → ℕ → Cmd → Cmd
unfolding find assign append_to
enter_toggle a p c =
    let key = a.toggle_group_name in
    elim a.default_value [
      | missing ↦ c
      | of_other ↦ c
      | of_bool b ↦ if is_empty key then c else record c {
        hit_toggle_groups = elim (find key c.hit_toggle_groups) [
          | none ↦ assign key a.title_long c.hit_toggle_groups
          | some t ↦ if b then assign key a.title_long c.hit_toggle_groups else c.hit_toggle_groups
        ];
        toggle_groups = append_to key p c.toggle_groups;
      }
    ]

-- The command with the arg in _all_args, its group and _indexed_args.
pub enter_arg : Cmd → Arg → Cmd
unfolding insert append_to stored
enter_arg c a = record c {
  all_args = c.all_args ++ stored a ∷ [];
  grouped_args = append_to (group_of a) (length c.all_args) c.grouped_args;
  indexed_args = insert a.title_long (length c.all_args) c.indexed_args;
}

-- The command when all titles are entered: the toggle groups, the last arg and the owner.
pub finish : ℕ → Cmd → Arg → Cmd → Cmd
unfolding enter_toggle stored
finish self old a c = record (enter_toggle (stored a) (length old.all_args) c) {
  all_args = old.all_args ++ (record (stored a) { owner = some self }) ∷ [];
  last_added_arg = some (length old.all_args);
}

-- add(a) at the command `self`
pub add_arg : ℕ → Cmd → Arg → Added
unfolding enter_arg enter_short enter_long finish
add_arg self c a =
    let p = length c.all_args in
    let entered = enter_arg c a in
    let short = enter_short a p c.short_args in
    let long = enter_long a p c.long_args in
    if is_empty a.title_long
    then record { cmd = c; error = none; notified = none }
    else elim short.1 [
      | some e ↦ record {
        cmd = record entered { short_args = short.0 };
        error = some e;
        notified = none;
      }
      | none ↦ elim long.1 [
        | some e ↦ record {
          cmd = record entered { short_args = short.0; long_args = long.0 };
          error = some e;
          notified = none;
        }
        | none ↦ record {
          cmd = finish self c a (record entered { short_args = short.0; long_args = long.0 });
          error = none;
          notified = some p;
        }
      ]
    ]
