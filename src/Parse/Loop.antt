-- ===== src/Parse/Loop.antt =====
-- app::process_command and the loop of app::run over the words of the command line.
pub mod Ends
pub mod Words
use cmdr_cxx.Base.{
  ℕ, zero, suc, ◌+◌, Bool, true, false, not, ◌&&◌, ◌||◌, List, [], ◌∷◌, ◌++◌, Option, none, some,
  Str, length, get_elem?, set, ◌==◌, is_empty, if◌then◌else◌,
}
use cmdr_cxx.Match.{Hit, Level, matching_command}
use cmdr_cxx.Parse.{
  Action, ok, continue, abortion, run_default_action, stops, Node, Context, Parser, Setup, Outcome,
  done, fault, unfinished, ◌>>=◌,
}
use cmdr_cxx.Parse.Word.{remain_args, process_special_flag, process_long_flag, process_short_flag}

-- What the first characters of a word say of it.
pub data Form : Type 0 where
  blank : Form
  special_flag : Form
  passthru : Form
  long_flag : Form
  short_flag : Form
  plain : Form

unfoldable pub form_of : Str → Form
form_of [] = blank
form_of (c ∷ []) = if c == b'-' || c == b'/' then short_flag else plain
form_of (c ∷ d ∷ s) =
    if c == b'~' && d == b'~'
    then special_flag
    else if c == b'-' && d == b'-'
    then (if is_empty s then passthru else long_flag)
    else if c == b'-' || c == b'/'
    then short_flag
    else plain

-- curr_command(): the last matched command, or the root, which stands at place 0.
unfoldable pub last_or : ℕ → List ℕ → ℕ
last_or root [] = root
last_or root (p ∷ ps) = last_or p ps

-- What one word leaves: the loop goes on with rc, breaks, or returns 0.
pub data Step (V : Type 0) : Type 0 where
  goes_on : Parser V → Action → Step V
  breaks : Parser V → Step V
  exits : Parser V → Step V

-- The end of the loop: after_run is called with rc, or run has returned 0.
pub data Verdict (V : Type 0) : Type 0 where
  parsed : Parser V → Action → Verdict V
  exited : Parser V → Verdict V

-- What follows a word.
abbrev pub next_word :
    {V : Type 0}
    → (ℕ → Parser V → Action → Outcome (Verdict V))
    → Action
    → Step V
    → Outcome (Verdict V)
next_word loop rc (goes_on s rc') = loop (s.pc.index + 1) s rc'
next_word loop rc (breaks s) = done (parsed s rc)
next_word loop rc (exits s) = done (exited s)

module _ {V : Type 0} (su : Setup V) (argv : List Str) where
  -- The command that is likely meant is matched; there may be none.
  pub likely : Parser V → Option ℕ → Parser V × Action
  likely s none = (s, abortion)
  likely s (some q) = (
    record s { pc = record s.pc { matched_commands = s.pc.matched_commands ++ q ∷ [] } },
    continue,
  )

  pub hook_answered : Parser V → Action → Parser V × Action
  unfolding likely
  hook_answered s run_default_action = likely s (su.suggestion s)
  hook_answered s rc = (s, rc)

  -- unknown_command_found(pc, cmr), without what it prints.
  pub unknown_command_found : Parser V → Parser V × Action
  unfolding hook_answered
  unknown_command_found s = hook_answered s (elim su.on_unknown as (λ o. Action) [
    | none ↦ run_default_action
    | some hook ↦ hook s.pc.title false true
  ])

  -- A command is matched. (hit_title is set once more to the text that the match has set.)
  pub command_matched : ℕ → Parser V → Parser V × Action
  command_matched q s =
      let s' = record s {
        pc = record s.pc { matched_commands = s.pc.matched_commands ++ q ∷ [] };
        cmds_matched = s.cmds_matched ++ q ∷ [];
      } in
      let rc = elim (su.on_command_hit q) as (λ o. Action) [
        | none ↦ continue
        | some hook ↦ hook (remain_args argv (s'.pc.index + 1))
      ] in
      (s', rc)

  -- No command is matched.
  pub command_unmatched : Parser V → Parser V × Action
  unfolding unknown_command_found
  command_unmatched s =
      let word = elim (get_elem? argv s.pc.index) as (λ o. Str) [ none ↦ [] | some text ↦ text ] in
      let s' = record s {
        pc = record s.pc { unknown_commands = s.pc.unknown_commands ++ word ∷ [] };
      } in
      if su.treat_unknown_input_command_as_error then unknown_command_found s' else (s', continue)

  -- `if (cmr.matched)`: the two branches.
  pub from_found : Option ℕ → Parser V → Parser V × Action
  unfolding command_matched command_unmatched
  from_found (some q) s = command_matched q s
  from_found none s = command_unmatched s

  -- process_command(pc, argc, argv)
  pub process_command : Parser V → Outcome (Parser V × Action)
  unfolding last_or matching_command from_found
  process_command s =
      let p = last_or 0 s.pc.matched_commands in
      elim (get_elem? s.nodes p) [
        | none ↦ fault
        | some node ↦
            let (found, l) =
              matching_command
                (record {
                  commands = s.node_hits;
                  long_commands = node.long_commands;
                  short_commands = node.short_commands;
                })
                s.pc.title in
            let s' = record s {
              pc = record s.pc { is_flag = false };
              node_hits = l.commands;
              nodes = set s.nodes p (record node { long_commands = l.long_commands });
            } in
            done (from_found found s')
      ]

  -- What run does with the answer of the word.
  abbrev pub answered : Outcome (Parser V × Action) → Outcome (Step V)
  answered o = o >>= λ r. done (if stops r.1 then exits r.0 else goes_on r.0 r.1)

  -- A word that is no flag. `valid` is that the title of the command is not empty.
  pub plain_word : Parser V → Action → Outcome (Step V)
  unfolding last_or process_command
  plain_word s rc = elim (get_elem? s.nodes (last_or 0 s.pc.matched_commands)) [
    | none ↦ fault
    | some node ↦
        if not (is_empty node.title_long) && is_empty node.all_commands
        then done (
            goes_on
              (record s {
                pc = record s.pc { non_commands = s.pc.non_commands ++ s.pc.title ∷ [] };
              })
              rc)
        else answered (process_command s)
  ]

  -- The branches of the body of the loop.
  pub by_form : Form → Parser V → Action → Outcome (Step V)
  unfolding plain_word process_special_flag process_long_flag process_short_flag
  by_form blank s rc = done (goes_on s rc)
  by_form special_flag s rc = answered (process_special_flag su argv s)
  by_form passthru s rc = done (breaks (record s { pc = record s.pc { passthru_flag = true } }))
  by_form long_flag s rc = answered (process_long_flag su argv s)
  by_form short_flag s rc = answered (process_short_flag su argv s)
  by_form plain s rc = plain_word s rc

  -- The body of the loop for the word at the index i.
  pub one_word : ℕ → Str → Parser V → Action → Outcome (Step V)
  unfolding form_of by_form
  one_word i title s rc =
      by_form (form_of title) (record s { pc = record s.pc { title = title; index = i; pos = 0 } })
        rc

  -- `for (int i = 1; i < argc; i = pc.index + 1)`, on fuel.
  pub words : ℕ → ℕ → Parser V → Action → Outcome (Verdict V)
  unfolding one_word
  words zero i s rc = elim (get_elem? argv i) [
    | none ↦ done (parsed s rc)
    | some title ↦ unfinished
  ]
  words (suc fuel) i s rc = elim (get_elem? argv i) [
    | none ↦ done (parsed s rc)
    | some title ↦ one_word i title s rc >>= λ r. next_word (words fuel) rc r
  ]

  -- The part of run from the start of the parsing to after_run, add_matched_cmd(*this) included.
  -- There are as many rounds as words
  -- at most.
  unfoldable pub parse : Parser V → Outcome (Verdict V)
  unfolding words
  parse s =
      words (length argv) 1
        (record s { pc = record s.pc { matched_commands = s.pc.matched_commands ++ 0 ∷ [] } }) ok
