-- ===== src/Options.antt =====
-- What app::on_arg_added and app::on_arg_matched of libs/cmdr11/include/cmdr11/cmdr_impl.hh write
-- into the option store, and bas::dotted_key of cmdr_cmd_inl.h. The callbacks that they call behind
-- that are not in the model.
pub mod Writes
pub mod Keys
mod Tests
use cmdr_cxx.Base.{
  ℕ, zero, suc, Bool, true, false, not, ◌&&◌, List, [], ◌∷◌, Option, none, some, Str, length,
  get_elem?, is_empty, if◌then◌else◌, ◌>>=◌,
}
use cmdr_cxx.Base.Maps.{Map, assign}
use cmdr_cxx.Text.Split.{join}
use cmdr_cxx.Store.{Heap, set_raw, set_raw_p}
use cmdr_cxx.Parse.{Node, Outcome, done, fault, unfinished}

-- The loop of dotted_key over the owners: the titles so far, with those of the owners in front. The
-- fuel is one more than the number of commands.
unfoldable pub titles_to_root : ℕ → List Node → Option ℕ → List Str → Outcome (List Str)
titles_to_root zero nodes owner titles = unfinished
titles_to_root (suc fuel) nodes none titles = done titles
titles_to_root (suc fuel) nodes (some p) titles = elim (get_elem? nodes p) [
  | none ↦ fault
  | some node ↦ titles_to_root fuel nodes node.owner (node.title_long ∷ titles)
]

abbrev pub joined : Outcome (List Str) → Outcome Str
joined (done titles) = done (join titles b'.' 0 0)
joined fault = fault
joined unfinished = unfinished

-- dotted_key()
unfoldable pub dotted_key : List Node → Option ℕ → Str → Outcome Str
unfolding titles_to_root join
dotted_key nodes owner title_long =
    joined (titles_to_root (suc (suc (length nodes))) nodes owner (title_long ∷ []))

-- What on_arg_matched reads of the arg: `key` is dotted_key(), `of_bool` that the default value is
-- a bool, and `group` the long titles of _toggle_groups[toggle_group_name] of its owner.
pub record MatchedArg : Type 0 where
  pub key : Str
  pub title_long : Str
  pub toggle_group_name : Str
  pub of_bool : Bool
  pub group : List Str

-- is_toggleable(), and the type of the default value
abbrev pub toggles : MatchedArg → Bool
toggles a = not (is_empty a.toggle_group_name) && a.of_bool

module _ {V : Type 0} (blank off : V) (of_text : Str → V) where
  -- on_arg_added(a) with the default value
  unfoldable pub on_arg_added : Heap V → Str → V → Option (Heap V)
  unfolding set_raw
  on_arg_added h key default_value = set_raw blank h 0 key default_value >>= λ r. some r.0

  -- The loop over the group.
  unfoldable pub reset_group : Heap V → Str → List Str → Option (Heap V)
  unfolding set_raw_p
  reset_group h cck [] = some h
  reset_group h cck (o ∷ group) = set_raw_p blank h 0 cck o off >>= λ r. reset_group r.0 cck group

  -- The part for toggle groups.
  unfoldable pub reset_toggles : Heap V → MatchedArg → Option (Heap V)
  unfolding reset_group
  reset_toggles h a = reset_group h a.key a.group >>= λ h1.
      set_raw_p blank h1 0 a.key a.toggle_group_name (of_text a.title_long) >>= λ r. some r.0

  -- on_arg_matched(a, value) on the store
  unfoldable pub on_arg_matched : Heap V → MatchedArg → V → Option (Heap V)
  unfolding reset_toggles
  on_arg_matched h a value = set_raw blank h 0 a.key value >>= λ r. elim (toggles a) [
    | true ↦ reset_toggles r.0 a
    | false ↦ some r.0
  ]

  -- The calls of on_arg_matched of a whole command line.
  unfoldable pub all_matched : Heap V → List (MatchedArg × V) → Option (Heap V)
  unfolding on_arg_matched
  all_matched h [] = some h
  all_matched h ((a, value) ∷ args) = on_arg_matched h a value >>= λ h1. all_matched h1 args

-- toggle_group_set(k, a) on _hit_toggle_groups of the owner
unfoldable pub toggle_group_set : Map Str → MatchedArg → Map Str
unfolding assign
toggle_group_set m a = if toggles a then assign a.toggle_group_name a.title_long m else m
