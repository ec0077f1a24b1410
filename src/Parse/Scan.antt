-- ===== src/Parse/Scan.antt =====
-- app::matching_flag_on: the titles that begin the rest of the input text, in the maps of the
-- matched commands and of their owners.
pub mod Longest
pub mod Lineage
use mathlib.Core.List.{reverse}
use cmdr_cxx.Base.{
  ℕ, zero, suc, ◌+◌, Bool, true, false, ◌&&◌, ◌||◌, List, [], ◌∷◌, ◌++◌, Option, none, some, Str,
  length, get_elem?, set, drop, ltb, if◌then◌else◌,
}
use cmdr_cxx.Base.Maps.{Map}
use cmdr_cxx.Match.{Hit}
use cmdr_cxx.Text.Affix.{has_prefix}
use cmdr_cxx.Parse.{Flag, Node, Context, Parser, Outcome, done, fault, unfinished, ◌>>=◌}

-- arg_matching_result with is_long and is_special, and the flags with their hits. `matched` is that
-- `obj` is there.
pub record Found (V : Type 0) : Type 0 where
  pub flags : List (Flag V)
  pub is_long : Bool
  pub is_special : Bool
  pub obj : Option ℕ
  pub matched_length : ℕ
  pub matched_str : Str

module _ {V : Type 0} where
  -- update_hit_count(title, 1, is_long, is_special)
  pub count_hit : Str → Bool → Bool → ℕ → List (Flag V) → List (Flag V)
  count_hit title long special p flags = elim (get_elem? flags p) [
    | none ↦ flags
    | some flag ↦ set flags p (record flag {
      hit = record {
        hit_title = title;
        hit_count = flag.hit.hit_count + 1;
        hit_long = long;
        hit_special = special;
      };
    })
  ]

  abbrev hit_before : (Hit → Bool) → ℕ → List (Flag V) → Bool
  hit_before read p flags = elim (get_elem? flags p) [ none ↦ false | some flag ↦ read flag.hit ]

  -- The entry (key, p) is taken as the match. The text that is counted is the key.
  unfoldable pub take_match : Str → ℕ → Found V → Found V
  unfolding count_hit
  take_match key p s =
      let long = s.is_long || hit_before (λ h. h.hit_long) p s.flags in
      let special = s.is_special || hit_before (λ h. h.hit_special) p s.flags in
      record {
        flags = count_hit key long special p s.flags;
        is_long = long;
        is_special = special;
        obj = some p;
        matched_length = length key;
        matched_str = key;
      }

  -- The loop over one map. Without _longest_first it breaks at the first match.
  unfoldable pub scan_map : Bool → Str → Map ℕ → Found V → Found V
  unfolding has_prefix take_match
  scan_map longest title [] s = s
  scan_map longest title ((key, p) ∷ m) s = elim longest [
    | true ↦ scan_map true title m (
        if has_prefix title key && ltb s.matched_length (length key) then take_match key p s else s)
    | false ↦ elim (has_prefix title key) [
      | true ↦ take_match key p s
      | false ↦ scan_map false title m s
    ]
  ]

  -- The maps in their order. A later map is searched although an earlier one had a match.
  unfoldable pub scan_maps : Bool → Str → List (Map ℕ) → Found V → Found V
  unfolding scan_map
  scan_maps longest title [] s = s
  scan_maps longest title (m ∷ ms) s = scan_maps longest title ms (scan_map longest title m s)

-- `if (ptr->owner() != nullptr)`: the map of the command, and those from the owner on.
abbrev pub from_owner : (ℕ → Outcome (List (Map ℕ))) → Map ℕ → Option ℕ → Outcome (List (Map ℕ))
from_owner up m none = done (m ∷ [])
from_owner up m (some q) = up q >>= λ ms. done (m ∷ ms)

-- `goto lookup_parents`: the maps of the command, its owner, and so on.
unfoldable pub owner_maps : ℕ → (Node → Map ℕ) → List Node → ℕ → Outcome (List (Map ℕ))
owner_maps zero li nodes p = unfinished
owner_maps (suc fuel) li nodes p = elim (get_elem? nodes p) [
  | none ↦ fault
  | some node ↦ from_owner (owner_maps fuel li nodes) (li node) node.owner
]

-- The loop over the matched commands, the last one first. The fuel is one more than the number of
-- commands.
unfoldable pub all_maps : (Node → Map ℕ) → List Node → List ℕ → Outcome (List (Map ℕ))
unfolding owner_maps
all_maps li nodes [] = done []
all_maps li nodes (p ∷ ps) = owner_maps (suc (length nodes)) li nodes p >>= λ ms.
    all_maps li nodes ps >>= λ rest. done (ms ++ rest)

-- `arg_matching_result amr;`
abbrev pub nothing_found : {V : Type 0} → Bool → Bool → List (Flag V) → Found V
nothing_found is_long is_special flags = record {
  flags = flags;
  is_long = is_long;
  is_special = is_special;
  obj = none;
  matched_length = 0;
  matched_str = [];
}

-- matching_flag_on(pc, is_long, is_special, li)
unfoldable pub matching_flag_on :
    {V : Type 0} → Bool → Bool → Bool → (Node → Map ℕ) → Parser V → Outcome (Found V)
unfolding all_maps scan_maps
matching_flag_on longest is_long is_special li s =
    all_maps li s.nodes (reverse s.pc.matched_commands) >>= λ ms.
    done
      (scan_maps longest (drop s.pc.pos s.pc.title) ms (nothing_found is_long is_special s.flags))
