-- ===== src/Parse/Tests.antt =====
-- Runs of the parser on a small command tree, and the witnesses of its theorems.
use cmdr_cxx.Base.{
  ℕ, zero, suc, true, false, List, [], ◌∷◌, Option, none, some, codes, Str, negsuc, ◌≡◌, refl,
  arith, str_eq,
}
use cmdr_cxx.Base.Maps.{Map}
use cmdr_cxx.Match.{Hit}
use cmdr_cxx.Parse.{
  ok, bool_kind, value_kind, Flag, Node, Context, Parser, Setup, Outcome, done, stops,
}
use cmdr_cxx.Parse.Ends.{Ends}
use cmdr_cxx.Parse.Scan.{Found, matching_flag_on, all_maps, nothing_found}
use cmdr_cxx.Parse.Scan.Longest.{matching_flag_on-Longest, entries, Longest}
use cmdr_cxx.Parse.Scan.Lineage.{OwnersPrecede}
use cmdr_cxx.Parse.Loop.{last_or, form_of, Verdict, parsed, words, parse}
use cmdr_cxx.Parse.Loop.Ends.{parse-Ends}
use cmdr_cxx.Parse.Loop.Words.{two_dashes, Passed, words-Passed}
use cmdr_cxx.Parse.After.{check_required_flags}
use cmdr_cxx.Parse.After.Required.{Answers, check_required_flags-Answers}

abbrev no_hit : Hit
no_hit = record { hit_title = []; hit_count = 0; hit_long = false; hit_special = false }

-- The values are texts, and the stream takes all of a text.
abbrev setup : Setup Str
setup = record {
  longest_first = true;
  treat_unknown_input_flag_as_error = true;
  treat_unknown_input_command_as_error = true;
  extract = λ old text. record { value = text; read = negsuc 0; eof = true };
  from_bool = λ b. codes "on";
  on_flag_hit = λ p. none;
  on_command_hit = λ p. none;
  on_unknown = none;
  suggestion = λ s. none;
}

abbrev root : Node
root = record {
  title_long = codes "app";
  owner = none;
  all_args = 1 ∷ [];
  all_commands = 1 ∷ [];
  long_args = (codes "verbose", 1) ∷ [];
  short_args = (codes "v", 1) ∷ [];
  long_commands = (codes "serve", 1) ∷ [];
  short_commands = (codes "s", 1) ∷ [];
}

abbrev serve : Node
serve = record {
  title_long = codes "serve";
  owner = some 0;
  all_args = 0 ∷ [];
  all_commands = [];
  long_args = (codes "port", 0) ∷ [];
  short_args = (codes "p", 0) ∷ [];
  long_commands = [];
  short_commands = [];
}

abbrev port : Flag Str
port = record { kind = value_kind; default_value = []; required = true; hit = no_hit }

abbrev verbose : Flag Str
verbose = record { kind = bool_kind; default_value = []; required = false; hit = no_hit }

abbrev context : Context
context = record {
  title = [];
  title_fragment = [];
  index = 0;
  is_flag = false;
  passthru_flag = false;
  matching_flag_type = 0;
  pos = 0;
  matched_flags = [];
  matched_commands = [];
  unknown_flags = [];
  unknown_commands = [];
  non_commands = [];
}

abbrev parser : Parser Str
parser = record {
  nodes = root ∷ serve ∷ [];
  node_hits = no_hit ∷ no_hit ∷ [];
  flags = port ∷ verbose ∷ [];
  pc = context;
  args_matched = [];
  cmds_matched = [];
}

abbrev at_serve : Parser Str
at_serve = record parser {
  pc = record context { matched_commands = 0 ∷ 1 ∷ []; title = codes "port=80" };
}

abbrev line : List Str
line =
    codes "app"
    ∷ codes "serve"
    ∷ codes "-vp"
    ∷ codes "80"
    ∷ codes "x"
    ∷ codes "--"
    ∷ codes "-y"
    ∷ []

abbrev summary : Outcome (Verdict Str) → Option (Context × List (ℕ × Str) × List ℕ)
summary (done (parsed s rc)) = some (s.pc, s.args_matched, s.cmds_matched)
summary _ = none

run : Option (Context × List (ℕ × Str) × List ℕ)
run = summary (parse setup line parser)

run_result :
    summary (parse setup line parser)
    ≡ some (
      record context {
        title = two_dashes;
        title_fragment = codes "p";
        index = 5;
        is_flag = true;
        passthru_flag = true;
        matched_flags = 1 ∷ 0 ∷ [];
        matched_commands = 0 ∷ 1 ∷ [];
        non_commands = codes "x" ∷ [];
      },
      (1, codes "on") ∷ (0, codes "80") ∷ [],
      1 ∷ [],
    )
unfolding parse str_eq stops
run_result = refl

owners_precede : OwnersPrecede (root ∷ serve ∷ [])
owners_precede zero node q e o = cc (e, o)
owners_precede (suc zero) node q e o = let c : q ≡ 0 = cc (e, o) in omega (arith, c)
owners_precede (suc (suc p)) node q e o = cc e

parse-Ends_example : Ends (parse setup line parser)
parse-Ends_example = parse-Ends setup line parser refl owners_precede

check_required_flags-Answers_example :
    Ends (check_required_flags 3 at_serve 1)
    × ((o : Option ℕ) → check_required_flags 3 at_serve 1 ≡ done o → Answers at_serve 1 o)
check_required_flags-Answers_example = check_required_flags-Answers at_serve 1 owners_precede

missed : check_required_flags 3 at_serve 1 ≡ done (some 0)
unfolding check_required_flags
missed = refl

words-Passed_example :
    (s' : Parser Str) × (words setup line 7 4 at_serve ok ≡ done (parsed s' ok))
    × Passed line (codes "x" ∷ []) (codes "-y" ∷ []) at_serve s'
unfolding form_of last_or
words-Passed_example =
    words-Passed setup line (codes "x" ∷ []) (codes "-y" ∷ []) 7 4 at_serve ok serve (omega arith)
      refl (refl, tt) refl (refl, refl)

abbrev found : Found Str
found = record {
  flags =
      record port {
        hit = record {
          hit_title = codes "port";
          hit_count = 1;
          hit_long = true;
          hit_special = false;
        };
      }
      ∷ verbose
      ∷ [];
  is_long = true;
  is_special = false;
  obj = some 0;
  matched_length = 4;
  matched_str = codes "port";
}

port_found : matching_flag_on true true false (λ c. c.long_args) at_serve ≡ done found
unfolding matching_flag_on str_eq
port_found = refl

matching_flag_on-Longest_example :
    (ms : List (Map ℕ)) × (all_maps (λ c. c.long_args) at_serve.nodes (1 ∷ 0 ∷ []) ≡ done ms)
    × Longest (codes "port=80") (entries ms) (nothing_found true false at_serve.flags) found
matching_flag_on-Longest_example =
    matching_flag_on-Longest true false (λ c. c.long_args) at_serve found port_found

abbrev at_port : Parser Str
at_port = record parser {
  pc = record context { matched_commands = 0 ∷ 1 ∷ []; title = codes "--port=80"; index = 2 };
}
