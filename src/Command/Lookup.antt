-- ===== src/Command/Lookup.antt =====
-- cmd::find_flag and cmd::find_command of libs/cmdr11/include/cmdr11/cmdr_cmd_inl.h. What is not
-- found is null_arg, null_command or nullptr, and is none here.
pub mod Finds
mod Tests
use cmdr_cxx.Base.{
  ℕ, Bool, true, false, ◌||◌, List, [], ◌∷◌, Option, none, some, Str, get_elem?, str_eq, ◌==◌,
  if◌then◌else◌,
}
use cmdr_cxx.Base.Maps.{Map, find}
use cmdr_cxx.Command.{Arg}
use cmdr_cxx.Command.Subcommands.{SubCmd}
use cmdr_cxx.Command.Titles.{member}

-- `if (is_leading_switch_char(title)) title++;`
unfoldable pub drop_switch : Str → Str
drop_switch [] = []
drop_switch (c ∷ s) = if c == b'-' || c == b'/' then s else c ∷ s

-- The titles that an arg or a command has behind its long one.
module _ {A : Type 0} (title_short : A → Str) (title_aliases : A → List Str) where
  abbrev pub carries : Str → A → Bool
  carries t a = str_eq (title_short a) t || member t (title_aliases a)

  -- The loop over the map behind `if (extensive)`, in the order of the map.
  unfoldable pub extensive_find : List A → Str → Map ℕ → Option ℕ
  extensive_find all t [] = none
  extensive_find all t ((key, p) ∷ m) =
      let rest = extensive_find all t m in
      elim (get_elem? all p) [ none ↦ rest | some a ↦ if carries t a then some p else rest ]

  -- The search for s in the map, and for t in the other titles.
  unfoldable pub find_titled : List A → Map ℕ → Str → Str → Bool → Option ℕ
  unfolding find extensive_find
  find_titled all m s t extensive = elim (find s m) [
    | some p ↦ some p
    | none ↦ elim extensive [ true ↦ extensive_find all t m | false ↦ none ]
  ]

module _ (all_args : List Arg) (indexed_args : Map ℕ) where
  -- find_flag(const_chars long_title, extensive)
  unfoldable pub find_flag : Str → Bool → Option ℕ
  unfolding drop_switch find_titled
  find_flag long_title extensive =
      let s = drop_switch (drop_switch long_title) in
      find_titled (λ a. a.title_short) (λ a. a.title_aliases) all_args indexed_args s s extensive

  -- find_flag(std::string const &long_title, extensive)
  unfoldable pub find_flag_string : Str → Bool → Option ℕ
  unfolding drop_switch find_titled
  find_flag_string long_title extensive =
      let s = drop_switch (drop_switch long_title) in
      find_titled (λ a. a.title_short) (λ a. a.title_aliases) all_args indexed_args s long_title
        extensive

-- find_command(long_title, extensive), both of them
unfoldable pub find_command : List SubCmd → Map ℕ → Str → Bool → Option ℕ
unfolding find_titled
find_command all_commands indexed_commands long_title extensive =
    find_titled (λ c. c.title_short) (λ c. c.title_aliases) all_commands indexed_commands long_title
      long_title extensive
