-- ===== src/Parse/Loop/Ends.antt =====
-- The loop of app::run comes to an end: no word puts the index back, so that there are no more
-- rounds than words.
use cmdr_cxx.Base.{
  ℕ, zero, suc, ◌+◌, ◌-◌, ◌≤◌, ◌<◌, ◌==◌, Bool, true, false, not, ◌&&◌, List, length, get_elem?,
  get_elem?-lt, get_elem?-past, get_elem?-set_self, get_elem?-set_ne, set, is_empty, Option, none,
  some, Str, if◌then◌else◌, ◌≡◌, refl, sym, subst, ap, arith, Option-cases, inl, inr, Bool-cases,
  ==_iff, ◌∙◌,
}
use cmdr_cxx.Base.Maps.{Map}
use cmdr_cxx.Match.{Level, matching_command}
use cmdr_cxx.Parse.{
  Action, ok, stops, ok, run_default_action, Node, Parser, Setup, Outcome, done, fault,
}
use cmdr_cxx.Parse.Ends.{Ends, Ends-bind, Ends-done, Ends-fault, bind-eq-done}
use cmdr_cxx.Parse.Scan.Lineage.{OwnersPrecede}
use cmdr_cxx.Parse.Word.{
  process_special_flag, process_long_flag, process_short_flag, process_flag, mft,
}
use cmdr_cxx.Parse.Word.Ends.{process_flag-Ends, process_flag-Same}
use cmdr_cxx.Parse.Loop.{
  Form, blank, special_flag, passthru, long_flag, short_flag, plain, form_of, last_or, Step,
  goes_on, breaks, exits, Verdict, likely, hook_answered, unknown_command_found, command_matched,
  command_unmatched, from_found, process_command, answered, plain_word, by_form, one_word,
  next_word, words, parse,
}

some_inj : {A : Type 0} (a b : A) → some a ≡ some b → a ≡ b
some_inj a b e = cc e

if_either : {A : Type 0} (P : A → Type 0) (b : Bool) {x y : A} → P x → P y → P (if b then x else y)
if_either P true x y = x
if_either P false x y = y

OwnersPrecede-set :
    (nodes : List Node) (p : ℕ) (node node' : Node)
    → get_elem? nodes p ≡ some node
    → node'.owner ≡ node.owner
    → OwnersPrecede nodes
    → OwnersPrecede (set nodes p node')
OwnersPrecede-set nodes p node node' e o w q m r g h = elim (Bool-cases (p == q)) [
  | inl b ↦
      let c = (==_iff p q).0 b in
      let d : node' ≡ m = some_inj _ _ (
        sym (get_elem?-set_self nodes p node' (get_elem?-lt nodes p node e))
        ∙ subst (λ i. get_elem? (set nodes p node') i ≡ some m) (sym c) g) in
      subst (λ i. r < i) c (w p node r e (sym o ∙ ap (λ n. n.owner) d ∙ h))
  | inr b ↦ w q m r (sym (get_elem?-set_ne nodes p q node' (λ c. cc (b, (==_iff p q).1 c))) ∙ g) h
]

done_inj : {A : Type 0} (a b : A) → done a ≡ done b → a ≡ b
done_inj a b e = cc e

goes_on_inj :
    {V : Type 0} (s t : Parser V) (rc rc' : Action)
    → done (goes_on s rc) ≡ done (goes_on t rc')
    → s ≡ t
goes_on_inj s t rc rc' e = cc e

-- What the loop needs of the parser behind the word at the index i.
record Carries {V : Type 0} (i : ℕ) (s : Parser V) : Type 0 where
  owners : OwnersPrecede s.nodes
  index : i ≤ s.pc.index

record WordEnds {V : Type 0} (i : ℕ) (o : Outcome (Parser V × Action)) : Type 0 where
  ends : Ends o
  carries : (s : Parser V) (rc : Action) → o ≡ done (s, rc) → Carries i s

record StepEnds {V : Type 0} (i : ℕ) (o : Outcome (Step V)) : Type 0 where
  ends : Ends o
  carries : (s : Parser V) (rc : Action) → o ≡ done (goes_on s rc) → Carries i s

module _ {V : Type 0} (su : Setup V) (argv : List Str) (i : ℕ) where
  likely-Carries : (s : Parser V) (o : Option ℕ) → Carries i s → Carries i (likely su argv s o).0
  unfolding likely
  likely-Carries s none c = c
  likely-Carries s (some q) c = record { owners = c.owners; index = c.index }

  hook_answered-Carries :
      (s : Parser V) (rc : Action) → Carries i s → Carries i (hook_answered su argv s rc).0
  unfolding hook_answered
  hook_answered-Carries s run_default_action c = likely-Carries s (su.suggestion s) c
  hook_answered-Carries s _ c = c

  from_found-Carries :
      (found : Option ℕ) (s : Parser V) → Carries i s → Carries i (from_found su argv found s).0
  unfolding from_found command_matched command_unmatched unknown_command_found
  from_found-Carries (some q) s c = record { owners = c.owners; index = c.index }
  from_found-Carries none s c =
      if_either (λ (r : Parser V × Action). Carries i r.0) su.treat_unknown_input_command_as_error
        (hook_answered-Carries _ _ (record { owners = c.owners; index = c.index }))
        (record { owners = c.owners; index = c.index })

  process_command-none :
      (s : Parser V)
      → get_elem? s.nodes (last_or 0 s.pc.matched_commands) ≡ none
      → process_command su argv s ≡ fault
  unfolding process_command
  process_command-none s e = rw (e, process_command) refl

  -- The parser behind the search of a command.
  abbrev searched : Parser V → ℕ → Node → Level → Parser V
  searched s p node l = record s {
    pc = record s.pc { is_flag = false };
    node_hits = l.commands;
    nodes = set s.nodes p (record node { long_commands = l.long_commands });
  }

  abbrev level : Parser V → Node → Level
  level s node = record {
    commands = s.node_hits;
    long_commands = node.long_commands;
    short_commands = node.short_commands;
  }

  process_command-some :
      (s : Parser V) (node : Node)
      → get_elem? s.nodes (last_or 0 s.pc.matched_commands) ≡ some node
      → process_command su argv s
        ≡ done (
            from_found su argv (matching_command (level s node) s.pc.title).0 (
              searched s
                (last_or 0 s.pc.matched_commands)
                node
                (matching_command (level s node) s.pc.title).1))
  unfolding process_command
  process_command-some s node e = rw (e, process_command) refl

  process_command-WordEnds : (s : Parser V) → Carries i s → WordEnds i (process_command su argv s)
  process_command-WordEnds s c =
      elim (Option-cases (get_elem? s.nodes (last_or 0 s.pc.matched_commands))) [
        | inl e ↦
            rw (process_command-none s e) (record { ends = Ends-fault _; carries = λ t rc g. cc g })
        | inr (node, e) ↦
            let p = last_or 0 s.pc.matched_commands in
            let (found, l) = matching_command (level s node) s.pc.title in
            let h = from_found-Carries found (searched s p node l) (record {
              owners =
                  OwnersPrecede-set s.nodes p node (record node { long_commands = l.long_commands })
                    e refl c.owners;
              index = c.index;
            }) in
            rw (process_command-some s node e) (record {
              ends = Ends-done _;
              carries = λ t rc g. subst (Carries i) (ap (λ z. z.0) (done_inj _ (t, rc) g)) h;
            })
      ]

  goes_on-Carries :
      (b : Bool) (s t : Parser V) (rc rc' : Action)
      → Carries i s
      → done (if b then exits s else goes_on s rc) ≡ done (goes_on t rc')
      → Carries i t
  goes_on-Carries true s t rc rc' c e = cc e
  goes_on-Carries false s t rc rc' c e = subst (Carries i) (goes_on_inj s t rc rc' e) c

  answered-StepEnds :
      (o : Outcome (Parser V × Action)) → WordEnds i o → StepEnds i (answered su argv o)
  answered-StepEnds o w = record {
    ends = Ends-bind o _ w.ends (λ r _. Ends-done _);
    carries = λ s rc e.
        let ((t, c), f, g) = bind-eq-done o _ (goes_on s rc) e in
        goes_on-Carries (stops c) t s c rc (w.carries t c f) g;
  }

  plain_word-StepEnds :
      (s : Parser V) (rc : Action) → Carries i s → StepEnds i (plain_word su argv s rc)
  unfolding plain_word
  plain_word-StepEnds s rc c =
      elim (Option-cases (get_elem? s.nodes (last_or 0 s.pc.matched_commands))) [
        | inl e ↦ rw (e, plain_word) (record { ends = Ends-fault _; carries = λ t rc g. cc g })
        | inr (node, e) ↦
            rw (e, plain_word)
              (if_either (StepEnds i) (not (is_empty node.title_long) && is_empty node.all_commands)
                (record {
                  ends = Ends-done _;
                  carries = λ t rc' g.
                      subst (Carries i) (goes_on_inj _ t rc rc' g)
                        (record { owners = c.owners; index = c.index });
                })
                (answered-StepEnds (process_command su argv s) (process_command-WordEnds s c)))
      ]

  module _ (longest : su.longest_first ≡ true) where
    process_flag-WordEnds :
        (long special : Bool) (li : Node → Map ℕ) (n : ℕ) (s : Parser V)
        → Carries i s
        → WordEnds i (process_flag su argv long special li n s)
    process_flag-WordEnds long special li n s c = record {
      ends = process_flag-Ends su argv long special li longest n s c.owners;
      carries = λ t rc e.
          let ((same, _), l) = process_flag-Same su argv long special li longest n s t rc e in
          record {
            owners = subst OwnersPrecede (sym same) c.owners;
            index = omega (arith, l, c.index);
          };
    }

    by_form-StepEnds :
        (f : Form) (s : Parser V) (rc : Action) → Carries i s → StepEnds i (by_form su argv f s rc)
    unfolding by_form process_special_flag process_long_flag process_short_flag
    by_form-StepEnds blank s rc c = record {
      ends = Ends-done _;
      carries = λ t rc' g. subst (Carries i) (goes_on_inj s t rc rc' g) c;
    }
    by_form-StepEnds special_flag s rc c = answered-StepEnds _ (
        process_flag-WordEnds true true (λ n. n.long_args) 2 (mft su argv 2 s)
          (record { owners = c.owners; index = c.index }))
    by_form-StepEnds passthru s rc c = record { ends = Ends-done _; carries = λ t rc' g. cc g }
    by_form-StepEnds long_flag s rc c = answered-StepEnds _ (
        process_flag-WordEnds true false (λ n. n.long_args) 2 (mft su argv 1 s)
          (record { owners = c.owners; index = c.index }))
    by_form-StepEnds short_flag s rc c = answered-StepEnds _ (
        process_flag-WordEnds false false (λ n. n.short_args) 1 (mft su argv 0 s)
          (record { owners = c.owners; index = c.index }))
    by_form-StepEnds plain s rc c = plain_word-StepEnds s rc c

    one_word-StepEnds :
        (title : Str) (s : Parser V) (rc : Action)
        → OwnersPrecede s.nodes
        → StepEnds i (one_word su argv i title s rc)
    unfolding one_word
    one_word-StepEnds title s rc w =
        by_form-StepEnds (form_of title) _ rc (record { owners = w; index = omega arith })

next_word-Ends :
    {V : Type 0} (loop : ℕ → Parser V → Action → Outcome (Verdict V)) (rc : Action) (r : Step V)
    → ((s : Parser V) (rc' : Action) → r ≡ goes_on s rc' → Ends (loop (s.pc.index + 1) s rc'))
    → Ends (next_word loop rc r)
next_word-Ends loop rc (goes_on s rc') h = h s rc' refl
next_word-Ends loop rc (breaks s) h = Ends-done _
next_word-Ends loop rc (exits s) h = Ends-done _

module _ {V : Type 0} (su : Setup V) (argv : List Str) (longest : su.longest_first ≡ true) where
  words-Ends :
      (fuel i : ℕ) (s : Parser V) (rc : Action)
      → OwnersPrecede s.nodes
      → length argv - i ≤ fuel
      → Ends (words su argv fuel i s rc)
  unfolding words
  words-Ends zero i s rc w h =
      let e = get_elem?-past argv i (omega (arith, h)) in rw (e, words) (Ends-done _)
  words-Ends (suc fuel) i s rc w h = elim (Option-cases (get_elem? argv i)) [
    | inl e ↦ rw (e, words) (Ends-done _)
    | inr (title, e) ↦
        let one = one_word-StepEnds su argv i longest title s rc w in
        let l = get_elem?-lt argv i title e in
        rw (e, words)
          (Ends-bind (one_word su argv i title s rc) _ one.ends (λ r f.
            next_word-Ends (words su argv fuel) rc r (λ t rc' g.
              let c = one.carries t rc' (f ∙ ap done g) in
              words-Ends fuel (t.pc.index + 1) t rc' c.owners (omega (arith, h, l, c.index)))))
  ]

-- The parsing of every command line ends, where the longest title is matched first and every
-- command was made behind its owner: one round for each word is enough, and in a word one for each
-- character and one more.
pub parse-Ends :
    {V : Type 0} (su : Setup V) (argv : List Str) (s : Parser V)
    → su.longest_first ≡ true
    → OwnersPrecede s.nodes
    → Ends (parse su argv s)
unfolding parse
parse-Ends su argv s longest w = words-Ends su argv longest (length argv) 1 _ ok w (omega arith)
