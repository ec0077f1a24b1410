-- ===== src/Command/Lookup/Tests.antt =====
-- Lookups in a command with the one flag help, short h.
use cmdr_cxx.Base.{ℕ, [], ◌∷◌, Option, none, some, codes, true, str_eq, ◌≡◌, refl}
use cmdr_cxx.Command.{Cmd, Arg, missing, empty_cmd, add_arg}
use cmdr_cxx.Command.Titles.{member}
use cmdr_cxx.Command.Add.{empty_cmd-IsCmd, add_arg-IsCmd}
use cmdr_cxx.Command.Lookup.{drop_switch, find_flag, find_flag_string}
use cmdr_cxx.Command.Lookup.Finds.{Finds, Lacks, find_flag-Finds}

abbrev help : Arg
help = record {
  title_long = codes "help";
  title_short = codes "h";
  title_aliases = [];
  group_name = [];
  toggle_group_name = [];
  default_value = missing;
  owner = none;
}

abbrev helped : Cmd
helped = record empty_cmd { all_args = help ∷ []; indexed_args = (codes "help", 0) ∷ [] }

-- The overload for const_chars finds what that for std::string does not.
overloads_differ :
    (find_flag helped.all_args helped.indexed_args (codes "-h") true ≡ some 0)
    × (find_flag_string helped.all_args helped.indexed_args (codes "-h") true ≡ none)
unfolding find_flag find_flag_string member str_eq
overloads_differ = (refl, refl)

abbrev with_help : Cmd
with_help = (add_arg 0 empty_cmd help).cmd

abbrev found_h : Option ℕ
found_h = find_flag with_help.all_args with_help.indexed_args (codes "-h") true

find_flag-Finds_example :
    Finds with_help (codes "h") found_h × (Lacks with_help (codes "h") → found_h ≡ none)
unfolding drop_switch
find_flag-Finds_example =
    find_flag-Finds with_help (codes "-h") (add_arg-IsCmd 0 empty_cmd help empty_cmd-IsCmd)

-- A dotted title is not taken apart.
dotted_not_found : find_flag helped.all_args helped.indexed_args (codes "app.cli.help") true ≡ none
unfolding find_flag member str_eq
dotted_not_found = refl
