-- ===== src/Match.antt =====
-- app::matching_command of libs/cmdr11/include/cmdr11/cmdr_impl.hh: the sub-commands of the
-- current command by their titles, and the record of the hits of cmdr_arg.hh.
pub mod Laws
mod Tests
use cmdr_cxx.Base.{ℕ, ◌+◌, Bool, true, false, List, Option, none, some, Str, get_elem?, set}
use cmdr_cxx.Base.Maps.{Map, find}

-- The fields of `bas` that update_hit_count writes. The count is an `int`, far from its bound.
pub record Hit : Type 0 where
  pub hit_title : Str
  pub hit_count : ℕ
  pub hit_long : Bool
  pub hit_special : Bool

-- The sub-commands of a command: _long_commands and _short_commands, with pointers as places.
pub record Level : Type 0 where
  pub commands : List Hit
  pub long_commands : Map ℕ
  pub short_commands : Map ℕ

-- update_hit_count(title, 1, is_long)
pub update_hit_count : Str → Bool → ℕ → List Hit → List Hit
update_hit_count title is_long p hits = elim (get_elem? hits p) [
  | none ↦ hits
  | some hit ↦ set hits p (record {
    hit_title = title;
    hit_count = hit.hit_count + 1;
    hit_long = is_long;
    hit_special = false;
  })
]

-- matching_command: the matched command, and the level. The reference `li` is assigned to, so the
-- map of the short titles is copied over the map of the long ones before it is searched.
unfoldable pub matching_command : Level → Str → Option ℕ × Level
unfolding find update_hit_count
matching_command l title = elim (find title l.long_commands) [
  | some p ↦ (some p, record l { commands = update_hit_count title true p l.commands })
  | none ↦ elim (find title l.short_commands) [
    | some p ↦ (
      some p,
      record l {
        commands = update_hit_count title false p l.commands;
        long_commands = l.short_commands;
      },
    )
    | none ↦ (none, record l { long_commands = l.short_commands })
  ]
]
