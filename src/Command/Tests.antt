-- ===== src/Command/Tests.antt =====
-- Witnesses and runs of the registry of flags.
use cmdr_cxx.Base.{[], ◌∷◌, none, some, codes, ◌≡◌, refl, true, ◌↔◌, str_eq}
use cmdr_cxx.Base.Maps.{find, insert, assign}
use cmdr_cxx.Command.{
  Arg, missing, of_bool, empty_cmd, add_arg, dup_short_flag_found, dup_alias_flag_found,
}
use cmdr_cxx.Command.Titles.{member, Free, short_titles}
use cmdr_cxx.Command.Add.{
  long_titles, add_arg_iff, Registered, add_arg-Registered, IsCmd, empty_cmd-IsCmd, add_arg-IsCmd,
}

abbrev help : Arg
help = record {
  title_long = codes "help";
  title_short = codes "h";
  title_aliases = codes "info" ∷ codes "usage" ∷ [];
  group_name = [];
  toggle_group_name = [];
  default_value = missing;
  owner = none;
}

abbrev host : Arg
host = record {
  title_long = codes "host";
  title_short = codes "h";
  title_aliases = [];
  group_name = [];
  toggle_group_name = codes "where";
  default_value = of_bool true;
  owner = none;
}

abbrev usage : Arg
usage = record {
  title_long = codes "use";
  title_short = [];
  title_aliases = codes "u" ∷ codes "usage" ∷ [];
  group_name = codes "x";
  toggle_group_name = [];
  default_value = missing;
  owner = none;
}

add_arg_iff_example :
    ((add_arg 0 empty_cmd help).error ≡ none)
    ↔ (Free (short_titles help) [] × Free (long_titles help) [])
add_arg_iff_example = add_arg_iff 0 empty_cmd help refl

Free-short : Free (short_titles help) []
unfolding find member
Free-short = (refl, refl, tt)

Free-long : Free (long_titles help) []
unfolding find member str_eq
Free-long = (refl, refl, (refl, refl, (refl, refl, tt)))

add_arg-Registered_example :
    ((add_arg 0 empty_cmd help).error ≡ none)
    × ((add_arg 0 empty_cmd help).notified ≡ some 0)
    × Registered 0 empty_cmd help (add_arg 0 empty_cmd help).cmd
add_arg-Registered_example = add_arg-Registered 0 empty_cmd help refl Free-short Free-long

add_arg-IsCmd_example : IsCmd (add_arg 0 empty_cmd help).cmd
add_arg-IsCmd_example = add_arg-IsCmd 0 empty_cmd help empty_cmd-IsCmd

-- A short title that is taken throws before the long one is entered; an alias that is taken throws
-- behind the long title and the alias in front of it.
add_arg_runs :
    ((add_arg 0 (add_arg 0 empty_cmd help).cmd host).error ≡ some dup_short_flag_found)
    × (find (codes "host") (add_arg 0 (add_arg 0 empty_cmd help).cmd host).cmd.long_args ≡ none)
    × ((add_arg 0 (add_arg 0 empty_cmd help).cmd usage).error
        ≡ some (dup_alias_flag_found (codes "usage")))
    × (find (codes "u") (add_arg 0 (add_arg 0 empty_cmd help).cmd usage).cmd.long_args ≡ some 1)
    × (find (codes "where") (add_arg 0 empty_cmd host).cmd.hit_toggle_groups ≡ some (codes "host"))
unfolding add_arg find insert assign str_eq
add_arg_runs = (refl, refl, refl, refl, refl)
