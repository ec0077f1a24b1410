-- ===== src/Parse/Loop/Words.antt =====
-- The words that are no flags, behind a command without sub-commands, and the word `--`.
use cmdr_cxx.Base.{
  ℕ, zero, suc, ◌+◌, ◌<◌, true, false, List, [], ◌∷◌, ◌++◌, append_assoc, append-nil, length,
  get_elem?, drop, is_empty, some, Str, ◌≡◌, refl, sym, ap, ◌∙◌, arith,
}
use cmdr_cxx.Parse.{Action, Node, Parser, Setup, done, ◌>>=◌}
use cmdr_cxx.Parse.Word.{remain_args}
use cmdr_cxx.Parse.Loop.{
  passthru, plain, form_of, last_or, goes_on, breaks, parsed, by_form, plain_word, one_word,
  next_word, words,
}

abbrev pub two_dashes : Str
two_dashes = b'-' ∷ b'-' ∷ []

-- A title is there and no sub-command: the words behind the command are its own.
abbrev pub TakesWords : Node → Type 0
TakesWords node = (is_empty node.title_long ≡ false) × (is_empty node.all_commands ≡ true)

abbrev pub AllPlain : List Str → Type 0
AllPlain [] = Unit
AllPlain (w ∷ ws) = (form_of w ≡ plain) × AllPlain ws

drop-cons :
    {A : Type 0} (i : ℕ) (xs : List A) (y : A) (ys : List A)
    → drop i xs ≡ y ∷ ys
    → (get_elem? xs i ≡ some y) × (drop (i + 1) xs ≡ ys)
drop-cons zero [] y ys e = cc e
drop-cons zero (x ∷ xs) y ys e = (cc e, cc e)
drop-cons (suc i) [] y ys e = cc e
drop-cons (suc i) (x ∷ xs) y ys e =
    let (a, b) = drop-cons i xs y ys e in
    let c : suc i + 1 ≡ suc (i + 1) = omega arith in (a, ap (λ n. drop n (x ∷ xs)) c ∙ b)

-- The parser where `--` ends the parsing behind the words ws, with the words `rest` behind it.
pub record Passed {V : Type 0} (argv : List Str) (ws rest : List Str) (s s' : Parser V)
    : Type 0 where
  pub passthru_flag : s'.pc.passthru_flag ≡ true
  pub non_commands : s'.pc.non_commands ≡ s.pc.non_commands ++ ws
  pub left_over : remain_args argv (s'.pc.index + 1) ≡ rest
  pub matched_commands : s'.pc.matched_commands ≡ s.pc.matched_commands
  pub flags : s'.flags ≡ s.flags
  pub nodes : s'.nodes ≡ s.nodes

module _ {V : Type 0} (su : Setup V) (argv : List Str) where
  abbrev at_word : ℕ → Str → Parser V → Parser V
  at_word i title s = record s { pc = record s.pc { title = title; index = i; pos = 0 } }

  one_word-plain :
      (i : ℕ) (title : Str) (s : Parser V) (rc : Action) (node : Node)
      → form_of title ≡ plain
      → get_elem? s.nodes (last_or 0 s.pc.matched_commands) ≡ some node
      → TakesWords node
      → one_word su argv i title s rc
        ≡ done (
            goes_on
              (record (at_word i title s) {
                pc = record (at_word i title s).pc {
                  non_commands = s.pc.non_commands ++ title ∷ [];
                };
              })
              rc)
  unfolding one_word by_form plain_word
  one_word-plain i title s rc node f e (a, b) = rw (f, e, a, b, one_word, by_form, plain_word) refl

  one_word-passthru :
      (i : ℕ) (title : Str) (s : Parser V) (rc : Action)
      → form_of title ≡ passthru
      → one_word su argv i title s rc
        ≡ done (
            breaks (record (at_word i title s) {
              pc = record (at_word i title s).pc { passthru_flag = true };
            }))
  unfolding one_word by_form
  one_word-passthru i title s rc f = rw (f, one_word, by_form) refl

  words_step :
      (fuel i : ℕ) (title : Str) (s : Parser V) (rc : Action)
      → get_elem? argv i ≡ some title
      → words su argv (suc fuel) i s rc
        ≡ (one_word su argv i title s rc >>= λ r. next_word (words su argv fuel) rc r)
  unfolding words
  words_step fuel i title s rc e = rw (e, words) refl

  -- Behind a command that takes words, plain words are kept in their order, and `--` ends the
  -- parsing with the words behind it left over; the commands and the flags stay as they were.
  pub words-Passed :
      (ws : List Str) (rest : List Str) (fuel i : ℕ) (s : Parser V) (rc : Action) (node : Node)
      → length ws < fuel
      → drop i argv ≡ ws ++ two_dashes ∷ rest
      → AllPlain ws
      → get_elem? s.nodes (last_or 0 s.pc.matched_commands) ≡ some node
      → TakesWords node
      → (s' : Parser V) × (words su argv fuel i s rc ≡ done (parsed s' rc))
        × Passed argv ws rest s s'
  unfolding form_of
  words-Passed ws rest zero i s rc node l d p e t = absurd (omega (arith, l))
  words-Passed [] rest (suc fuel) i s rc node l d p e t =
      let (g, h) = drop-cons i argv two_dashes rest d in
      let one = one_word-passthru i two_dashes s rc refl in
      (
        _,
        words_step fuel i two_dashes s rc g ∙ ap (λ o. o >>= next_word (words su argv fuel) rc) one,
        record {
          passthru_flag = refl;
          non_commands = sym (append-nil s.pc.non_commands);
          left_over = h;
          matched_commands = refl;
          flags = refl;
          nodes = refl;
        },
      )
  words-Passed (w ∷ ws) rest (suc fuel) i s rc node l d (pw, p) e t =
      let (g, h) = drop-cons i argv w (ws ++ two_dashes ∷ rest) d in
      let one = one_word-plain i w s rc node pw e t in
      let u = record (at_word i w s) {
        pc = record (at_word i w s).pc { non_commands = s.pc.non_commands ++ w ∷ [] };
      } in
      let (s', r, q) = words-Passed ws rest fuel (i + 1) u rc node (omega (arith, l)) h p e t in
      (
        s',
        words_step fuel i w s rc g ∙ ap (λ o. o >>= next_word (words su argv fuel) rc) one ∙ r,
        record {
          passthru_flag = q.passthru_flag;
          non_commands = q.non_commands ∙ append_assoc s.pc.non_commands (w ∷ []) ws;
          left_over = q.left_over;
          matched_commands = q.matched_commands;
          flags = q.flags;
          nodes = q.nodes;
        },
      )
