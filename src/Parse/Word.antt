-- ===== src/Parse/Word.antt =====
-- app::process_flag: one word of the command line that holds one flag or several.
pub mod Rounds
pub mod Ends
pub mod Values
use cmdr_cxx.Base.{
  ℕ, zero, suc, ◌+◌, ◌-◌, Bool, true, false, not, ◌&&◌, ◌||◌, List, [], ◌∷◌, ◌++◌, Option, none,
  some, Str, length, get_elem?, set, drop, ltb, ◌==◌, is_empty, if◌then◌else◌, ℤ, pos, negsuc,
  is_positive,
}
use cmdr_cxx.Base.Maps.{Map}
use cmdr_cxx.Match.{Hit}
use cmdr_cxx.Text.Affix.{strip_quotes}
use cmdr_cxx.Parse.{
  Action, continue, abortion, or_abort, stops, Kind, bool_kind, void_kind, value_kind, Flag, Node,
  Context, Parser, Extraction, Setup, Outcome, done, fault, unfinished, ◌>>=◌, from_option,
}
use cmdr_cxx.Parse.Scan.{Found, matching_flag_on}

-- remain_args(argv, i, argc)
abbrev pub remain_args : List Str → ℕ → List Str
remain_args argv i = drop i argv

-- What one match of a flag leaves: the parser, matched_length, value_parsed and extra_argv.
pub record Taken (V : Type 0) : Type 0 where
  pub parser : Parser V
  pub matched_length : ℕ
  pub value_parsed : Bool
  pub extra_argv : Bool

-- A round ends with `goto next_combined` or with a return. The first has the parser, extra_argv
-- and rc.
pub data Round (V : Type 0) : Type 0 where
  again : Parser V → Bool → Action → Round V
  returns : Parser V → Action → Round V

-- `if (remains[0] == '=') remains = remains.substr(1);`
pub drop_equals : Str → Str
drop_equals [] = []
drop_equals (c ∷ s) = if c == b'=' then s else c ∷ s

abbrev pub size_of_read : ℤ → ℕ
size_of_read (pos n) = n
size_of_read (negsuc n) = 0

module _ {V : Type 0} where
  abbrev change_flag : ℕ → (Flag V → Flag V) → List (Flag V) → List (Flag V)
  change_flag p f flags = elim (get_elem? flags p) [
    | none ↦ flags
    | some flag ↦ set flags p (f flag)
  ]

  -- hit_title(text)
  pub set_hit_title : ℕ → Str → Parser V → Parser V
  set_hit_title p text s = record s {
    flags =
        change_flag p
          (λ flag. record flag {
            hit = record {
              hit_title = text;
              hit_count = flag.hit.hit_count;
              hit_long = flag.hit.hit_long;
              hit_special = flag.hit.hit_special;
            };
          })
          s.flags;
  }

  -- add_matched_arg(p) and on_arg_matched(p, value)
  pub add_matched_arg : ℕ → V → Parser V → Parser V
  add_matched_arg p value s = record s {
    pc = record s.pc { matched_flags = s.pc.matched_flags ++ p ∷ [] };
    args_matched = s.args_matched ++ (p, value) ∷ [];
  }

  abbrev with_index : ℕ → Parser V → Parser V
  with_index i s = record s { pc = record s.pc { index = i } }

module _ {V : Type 0} where
  -- What follows a round.
  abbrev pub next_round :
      (Parser V → Bool → Action → Outcome (Parser V × Action))
      → Round V
      → Outcome (Parser V × Action)
  next_round loop (returns s rc) = done (s, rc)
  next_round loop (again s extra rc) = loop s extra rc

module _ {V : Type 0} (su : Setup V) (argv : List Str) where
  -- The text of the value, pc.index and extra_argv: the rest of the word, or the word behind it.
  pub value_text : Str → ℕ → Bool → Str × ℕ × Bool
  value_text stripped index extra =
      elim (if is_empty stripped then get_elem? argv (suc index) else none) [
        | none ↦ (stripped, index, extra)
        | some text ↦ (text, suc index, true)
      ]

  -- The stream is read, and the match is kept, whether a value was parsed or not. `--pc.index`
  -- takes back what `++pc.index` did, so it does not pass 0.
  pub read_from : ℕ → V → ℕ → ℕ → Str × ℕ × Bool → Parser V → Taken V
  unfolding add_matched_arg
  read_from p old len orig (remains, index, extra) s =
      let ex = su.extract old remains in
      let parsed = is_positive ex.read || ex.eof in
      let len' =
        if is_positive ex.read
        then len + size_of_read ex.read
        else if extra
        then len
        else len + orig in
      record {
        parser = add_matched_arg p ex.value (
            with_index (if not parsed && extra then index - 1 else index) (record s {
              flags = change_flag p (λ f. record f { default_value = ex.value }) s.flags;
            }));
        matched_length = if parsed then len' else len;
        value_parsed = parsed;
        extra_argv = extra;
      }

  -- The value branch behind strip_quotes: `stripped` is the rest of the word, `orig` its length
  -- before.
  pub read_value : ℕ → Flag V → ℕ → Bool → ℕ → Str → Parser V → Taken V
  unfolding value_text read_from
  read_value p flag len extra orig stripped s =
      read_from p flag.default_value len orig (value_text stripped s.pc.index extra) s

  -- The branch of a bool: `-` and `+` behind the title.
  pub read_switch : ℕ → ℕ → Bool → Parser V → Taken V
  unfolding add_matched_arg
  read_switch p len extra s =
      let ch = elim (get_elem? s.pc.title (s.pc.pos + len)) as (λ o. ℕ) [ none ↦ 0 | some c ↦ c ] in
      record {
        parser = add_matched_arg p (su.from_bool (not (ch == b'-'))) s;
        matched_length = if ch == b'-' || ch == b'+' then len + 1 else len;
        value_parsed = true;
        extra_argv = extra;
      }

  -- The three branches on the type of the default value.
  pub take_value : Kind → ℕ → Flag V → ℕ → Bool → Parser V → Outcome (Taken V)
  unfolding read_value read_switch add_matched_arg strip_quotes drop_equals
  take_value value_kind p flag len extra s =
      let remains = drop (s.pc.pos + len) s.pc.title in
      from_option (strip_quotes (drop_equals remains)) >>= λ stripped.
      done (read_value p flag len extra (length remains) stripped s)
  take_value bool_kind p flag len extra s = done (read_switch p len extra s)
  take_value void_kind p flag len extra s = done (record {
    parser = add_matched_arg p (su.from_bool true) s;
    matched_length = len;
    value_parsed = true;
    extra_argv = extra;
  })

  -- on_flag_hit: the new rc, and whether it ends the parsing.
  pub flag_hit : ℕ → ℕ → Action → Action × Bool
  flag_hit p index rc = elim (su.on_flag_hit p) [
    | none ↦ (rc, false)
    | some hook ↦ let answer = hook (remain_args argv (index + 1)) in (answer, stops answer)
  ]

  -- What follows: title_fragment, on_flag_hit, the position, and where to go on.
  pub finish_round : ℕ → Str → Action → Taken V → Round V
  unfolding flag_hit
  finish_round p text rc t =
      let s = record t.parser { pc = record t.parser.pc { title_fragment = text } } in
      let (rc', ends) = flag_hit p s.pc.index rc in
      let s' = record s { pc = record s.pc { pos = s.pc.pos + t.matched_length } } in
      if ends
      then returns s rc'
      else if not t.value_parsed
      then returns s' continue
      else if ltb s'.pc.pos (length s'.pc.title)
      then again s' t.extra_argv rc'
      else returns s' rc'

  -- unknown_long_flag_found and unknown_short_flag_found, without what they print.
  pub unknown_flag_found : Parser V → Action
  unknown_flag_found s = elim su.on_unknown [
    | none ↦ abortion
    | some hook ↦ or_abort (hook s.pc.title (not (s.pc.matching_flag_type == 0)) false)
  ]

  -- No title matches.
  pub unmatched : Parser V → Parser V × Action
  unfolding unknown_flag_found
  unmatched s =
      let word = elim (get_elem? argv s.pc.index) as (λ o. Str) [ none ↦ [] | some text ↦ text ] in
      let s' = record s {
        pc = record s.pc {
          title_fragment = s.pc.title;
          title = word;
          unknown_flags = s.pc.unknown_flags ++ word ∷ [];
        };
      } in
      (s', if su.treat_unknown_input_flag_as_error then unknown_flag_found s' else continue)

  -- `if (amr.matched)`: the branch of a match and the other one.
  pub from_match : Parser V → Bool → Action → Found V → Option ℕ → Outcome (Round V)
  unfolding set_hit_title take_value finish_round unmatched
  from_match s extra rc amr none =
      let (s', rc') = unmatched (record s { flags = amr.flags }) in done (returns s' rc')
  from_match s extra rc amr (some p) =
      let s1 = set_hit_title p amr.matched_str (record s { flags = amr.flags }) in
      from_option (get_elem? s1.flags p) >>= λ flag.
      take_value flag.kind p flag amr.matched_length extra s1 >>= λ t.
      done (finish_round p amr.matched_str rc t)

  module _ (is_long is_special : Bool) (li : Node → Map ℕ) where
    -- From the label next_combined to the `goto` or the return.
    unfoldable pub one_round : Parser V → Bool → Action → Outcome (Round V)
    unfolding matching_flag_on from_match
    one_round s extra rc = matching_flag_on su.longest_first is_long is_special li s >>= λ amr.
        from_match s extra rc amr amr.obj

    -- The rounds, on fuel.
    unfoldable pub rounds : ℕ → Parser V → Bool → Action → Outcome (Parser V × Action)
    unfolding one_round
    rounds zero s extra rc = unfinished
    rounds (suc fuel) s extra rc = one_round s extra rc >>= λ r. next_round (rounds fuel) r

    -- process_flag(pc, argc, argv, leading_chars, matcher). Every round but the last goes on in the
    -- word, so its length bounds them.
    unfoldable pub process_flag : ℕ → Parser V → Outcome (Parser V × Action)
    unfolding rounds
    process_flag leading_chars s =
        let s' = record s { pc = record s.pc { title = drop leading_chars s.pc.title } } in
        rounds (suc (length s'.pc.title)) s' false continue

  -- mft(mft)
  abbrev pub mft : ℕ → Parser V → Parser V
  mft t s = record s { pc = record s.pc { is_flag = true; matching_flag_type = t } }

  unfoldable pub process_special_flag : Parser V → Outcome (Parser V × Action)
  unfolding process_flag
  process_special_flag s = process_flag true true (λ c. c.long_args) 2 (mft 2 s)

  unfoldable pub process_long_flag : Parser V → Outcome (Parser V × Action)
  unfolding process_flag
  process_long_flag s = process_flag true false (λ c. c.long_args) 2 (mft 1 s)

  unfoldable pub process_short_flag : Parser V → Outcome (Parser V × Action)
  unfolding process_flag
  process_short_flag s = process_flag false false (λ c. c.short_args) 1 (mft 0 s)
