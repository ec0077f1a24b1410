-- ===== src/Command/Subcommands/Tests.antt =====
-- The command serve, short s, in a command without others.
use cmdr_cxx.Base.{[], ◌∷◌, none, some, codes, str_eq, ◌≡◌, ◌↔◌, refl}
use cmdr_cxx.Command.Titles.{Free, short_titles}
use cmdr_cxx.Command.Subcommands.{SubCmd, CmdList, AddedCmd, dup_short_cmd_found, add_cmd}
use cmdr_cxx.Base.Maps.{find}
use cmdr_cxx.Command.Subcommands.Entered.{titled, CmdEntered, add_cmd-CmdEntered}

abbrev serve : SubCmd
serve = record {
  title_long = codes "serve";
  title_short = codes "s";
  title_aliases = codes "run" ∷ [];
  group_name = [];
  owner = none;
}

abbrev no_commands : CmdList
no_commands = record {
  all_commands = [];
  grouped_commands = [];
  indexed_commands = [];
  short_commands = [];
  long_commands = [];
  last_added_command = none;
}

add_cmd-CmdEntered_example :
    (((add_cmd 0 no_commands serve).error ≡ none)
      ↔ (Free (short_titles (titled serve)) [] × Free (codes "serve" ∷ codes "run" ∷ []) []))
    × ((add_cmd 0 no_commands serve).error ≡ none
        → CmdEntered 0 no_commands serve (add_cmd 0 no_commands serve))
add_cmd-CmdEntered_example = add_cmd-CmdEntered 0 no_commands serve refl

-- The command start, whose short title is taken, is refused, and the index leads to it.
abbrev start : SubCmd
start = record serve { title_long = codes "start" }

abbrev refused : AddedCmd
refused = add_cmd 0 (add_cmd 0 no_commands serve).list start

stale_index :
    (refused.error ≡ some dup_short_cmd_found)
    × (find (codes "start") refused.list.indexed_commands ≡ some 1)
    × (find (codes "start") refused.list.long_commands ≡ none)
unfolding add_cmd find str_eq
stale_index = (refl, refl, refl)
