-- ===== src/Command/Subcommands.antt =====
-- cmd::add(cmd) of libs/cmdr11/include/cmdr11/cmdr_cmd_inl.h. A pointer to a command is its place in
-- _all_commands.
pub mod Entered
mod Tests
use cmdr_cxx.Base.{
  ℕ, Bool, true, false, List, [], ◌∷◌, ◌++◌, Option, none, some, Str, length, is_empty,
  if◌then◌else◌,
}
use cmdr_cxx.Base.Maps.{Map, find, insert}
use cmdr_cxx.Command.{unsorted_group, append_to}

pub record SubCmd : Type 0 where
  pub title_long : Str
  pub title_short : Str
  pub title_aliases : List Str
  pub group_name : Str
  pub owner : Option ℕ

-- The commands of a command.
pub record CmdList : Type 0 where
  pub all_commands : List SubCmd
  pub grouped_commands : Map (List ℕ)
  pub indexed_commands : Map ℕ
  pub short_commands : Map ℕ
  pub long_commands : Map ℕ
  pub last_added_command : Option ℕ

pub data CmdError : Type 0 where
  dup_short_cmd_found : CmdError
  dup_long_cmd_found : CmdError
  dup_alias_cmd_found : Str → CmdError

-- What add leaves: the commands, the exception that it throws, and the command that on_cmd_added is
-- called with.
pub record AddedCmd : Type 0 where
  pub list : CmdList
  pub error : Option CmdError
  pub notified : Option ℕ

-- The command in _all_commands, before its owner is set.
pub grouped : SubCmd → SubCmd
grouped a = record a { group_name = if is_empty a.group_name then unsorted_group else a.group_name }

-- The entry in _short_commands.
pub enter_short_cmd : SubCmd → ℕ → Map ℕ → Map ℕ × Option CmdError
unfolding find insert
enter_short_cmd a p m = if is_empty a.title_short then (m, none) else elim (find a.title_short m) [
  | some q ↦ (m, some dup_short_cmd_found)
  | none ↦ (insert a.title_short p m, none)
]

-- The loop over the aliases.
pub enter_cmd_aliases : List Str → ℕ → Map ℕ → Map ℕ × Option CmdError
unfolding find insert
enter_cmd_aliases [] p m = (m, none)
enter_cmd_aliases (t ∷ ts) p m = elim (find t m) [
  | some q ↦ (m, some (dup_alias_cmd_found t))
  | none ↦ enter_cmd_aliases ts p (insert t p m)
]

-- The entries in _long_commands.
pub enter_long_cmd : SubCmd → ℕ → Map ℕ → Map ℕ × Option CmdError
unfolding enter_cmd_aliases
enter_long_cmd a p m = elim (find a.title_long m) [
  | some q ↦ (m, some dup_long_cmd_found)
  | none ↦ enter_cmd_aliases a.title_aliases p (insert a.title_long p m)
]

-- The commands with `a` in _all_commands, its group and _indexed_commands.
pub enter_cmd : CmdList → SubCmd → CmdList
unfolding insert append_to grouped
enter_cmd c a = record c {
  all_commands = c.all_commands ++ grouped a ∷ [];
  grouped_commands = append_to (grouped a).group_name (length c.all_commands) c.grouped_commands;
  indexed_commands = insert a.title_long (length c.all_commands) c.indexed_commands;
}

-- _last_added_command and the owner.
pub finish_cmd : ℕ → CmdList → SubCmd → CmdList → CmdList
unfolding grouped
finish_cmd self old a c = record c {
  all_commands = old.all_commands ++ (record (grouped a) { owner = some self }) ∷ [];
  last_added_command = some (length old.all_commands);
}

-- What follows the two maps of titles.
abbrev pub ended_cmd :
    ℕ → CmdList → SubCmd → Map ℕ × Option CmdError → Map ℕ × Option CmdError → AddedCmd
ended_cmd self c a (shorts, some e) long = record {
  list = record (enter_cmd c a) { short_commands = shorts };
  error = some e;
  notified = none;
}
ended_cmd self c a (shorts, none) (longs, some e) = record {
  list = record (enter_cmd c a) { short_commands = shorts; long_commands = longs };
  error = some e;
  notified = none;
}
ended_cmd self c a (shorts, none) (longs, none) = record {
  list =
      finish_cmd self c a
        (record (enter_cmd c a) { short_commands = shorts; long_commands = longs });
  error = none;
  notified = some (length c.all_commands);
}

-- add(a) at the command `self`
pub add_cmd : ℕ → CmdList → SubCmd → AddedCmd
unfolding enter_cmd enter_short_cmd enter_long_cmd finish_cmd
add_cmd self c a =
    if is_empty a.title_long
    then record { list = c; error = none; notified = none }
    else ended_cmd self c a (enter_short_cmd a (length c.all_commands) c.short_commands)
        (enter_long_cmd a (length c.all_commands) c.long_commands)
