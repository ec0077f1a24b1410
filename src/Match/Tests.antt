-- ===== src/Match/Tests.antt =====
-- Witnesses of the matching of commands.
use cmdr_cxx.Base.{[], ◌∷◌, none, some, codes, ◌≡◌, refl, false, str_eq}
use cmdr_cxx.Base.Maps.{find}
use cmdr_cxx.Match.{Hit, Level, matching_command}
use cmdr_cxx.Match.Laws.{matching_command_forgets}

abbrev no_hit : Hit
no_hit = record { hit_title = []; hit_count = 0; hit_long = false; hit_special = false }

abbrev level : Level
level = record {
  commands = no_hit ∷ [];
  long_commands = (codes "server", 0) ∷ [];
  short_commands = (codes "s", 0) ∷ [];
}

found : (matching_command level (codes "s")).0 ≡ some 0
unfolding matching_command find str_eq
found = refl

missing_long : find (codes "s") level.long_commands ≡ none
unfolding find str_eq
missing_long = refl

found_long : find (codes "server") level.long_commands ≡ some 0
unfolding find str_eq
found_long = refl

no_short : find (codes "server") level.short_commands ≡ none
unfolding find str_eq
no_short = refl

matching_command_forgets_example :
    ((matching_command level (codes "server")).0 ≡ some 0)
    × ((matching_command (matching_command level (codes "s")).1 (codes "server")).0 ≡ none)
matching_command_forgets_example =
    matching_command_forgets level (codes "s") (codes "server") 0 missing_long found_long no_short
