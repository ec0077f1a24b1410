-- ===== src/Parse.antt =====
-- The state of app::run in libs/cmdr11/include/cmdr11/cmdr_impl.hh: Action and parsing_context of
-- cmdr_cmn.hh, and what the parser reads and writes of the commands and flags. All commands stand
-- in one list and all flags in another, and a pointer is a place in its list.
pub mod Ends
pub mod Scan
pub mod Word
pub mod Loop
pub mod After
mod Tests
use cmdr_cxx.Base.{
  ℕ, zero, suc, ◌+◌, Bool, true, false, List, [], ◌∷◌, ◌++◌, Option, none, some, Str, ℤ, leb,
}
use cmdr_cxx.Base.Maps.{Map}
use cmdr_cxx.Match.{Hit}

pub data Action : Type 0 where
  ok : Action
  request_help_screen : Action
  request_build_info_screen : Action
  request_versions_screen : Action
  request_tree_screen : Action
  request_manual_screen : Action
  request_debug_info_screen : Action
  continue : Action
  abortion : Action
  run_default_action : Action

abbrev pub action_value : Action → ℕ
action_value ok = 0
action_value request_help_screen = 10
action_value request_build_info_screen = 11
action_value request_versions_screen = 12
action_value request_tree_screen = 13
action_value request_manual_screen = 14
action_value request_debug_info_screen = 20
action_value continue = 31
action_value abortion = 33
action_value run_default_action = 34

-- `rc < OK || rc >= Abortion`
pub stops : Action → Bool
stops rc = leb 33 (action_value rc)

-- What the answer of the hook for unknown input makes of the default, which is Abortion.
abbrev pub or_abort : Action → Action
or_abort run_default_action = abortion
or_abort rc = rc

-- The type of the default value of a flag.
pub data Kind : Type 0 where
  bool_kind : Kind
  void_kind : Kind
  value_kind : Kind

-- What the parser needs of an arg. V is vars::variable.
pub record Flag (V : Type 0) : Type 0 where
  pub kind : Kind
  pub default_value : V
  pub required : Bool
  pub hit : Hit

-- What it needs of a cmd.
pub record Node : Type 0 where
  pub title_long : Str
  pub owner : Option ℕ
  pub all_args : List ℕ
  pub all_commands : List ℕ
  pub long_args : Map ℕ
  pub short_args : Map ℕ
  pub long_commands : Map ℕ
  pub short_commands : Map ℕ

-- parsing_context. `_values_map` is written and never read, and is left out.
pub record Context : Type 0 where
  pub title : Str
  pub title_fragment : Str
  pub index : ℕ
  pub is_flag : Bool
  pub passthru_flag : Bool
  pub matching_flag_type : ℕ
  pub pos : ℕ
  pub matched_flags : List ℕ
  pub matched_commands : List ℕ
  pub unknown_flags : List Str
  pub unknown_commands : List Str
  pub non_commands : List Str

-- The commands with their hits, the flags, the context, and the calls of on_arg_matched and
-- on_cmd_matched so far.
pub record Parser (V : Type 0) : Type 0 where
  pub nodes : List Node
  pub node_hits : List Hit
  pub flags : List (Flag V)
  pub pc : Context
  pub args_matched : List (ℕ × V)
  pub cmds_matched : List ℕ

-- `stream >> variable` on the text of a value: the variable, the difference of the two tellg(),
-- and eof(). It stands for the streams of the standard library.
pub record Extraction (V : Type 0) : Type 0 where
  pub value : V
  pub read : ℤ
  pub eof : Bool

-- The settings of the app, the hooks, and what the parser calls of other code. A hook gives an
-- Action; on_unknown is called with the title and whether it is a long flag and a command.
-- `suggestion` is what unknown_command_found picks behind the hook by the likeness of titles.
pub record Setup (V : Type 0) : Type 0 where
  pub longest_first : Bool
  pub treat_unknown_input_flag_as_error : Bool
  pub treat_unknown_input_command_as_error : Bool
  pub extract : V → Str → Extraction V
  pub from_bool : Bool → V
  pub on_flag_hit : ℕ → Option (List Str → Action)
  pub on_command_hit : ℕ → Option (List Str → Action)
  pub on_unknown : Option (Str → Bool → Bool → Action)
  pub suggestion : Parser V → Option ℕ

-- A loop that ends, reads out of range, or has run out of fuel.
pub data Outcome (A : Type 0) : Type 0 where
  done : A → Outcome A
  fault : Outcome A
  unfinished : Outcome A

infixl 5 ◌>>=◌
abbrev pub ◌>>=◌ : {A B : Type 0} → Outcome A → (A → Outcome B) → Outcome B
done a >>= f = f a
fault >>= f = fault
unfinished >>= f = unfinished

abbrev pub from_option : {A : Type 0} → Option A → Outcome A
from_option none = fault
from_option (some a) = done a
