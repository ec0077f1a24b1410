-- ===== src/Parse/After.antt =====
-- app::after_run and check_required_flags.
pub mod Required
use cmdr_cxx.Base.{
  ℕ, zero, suc, ◌+◌, Bool, true, false, not, ◌&&◌, List, [], ◌∷◌, ◌++◌, Option, none, some, Str,
  length, get_elem?, ltb, ◌==◌, is_empty, if◌then◌else◌,
}
use cmdr_cxx.Parse.{
  Action, ok, continue, action_value, Flag, Node, Context, Parser, Outcome, done, fault, unfinished,
  ◌>>=◌, from_option,
}
use cmdr_cxx.Parse.Word.{remain_args}
use cmdr_cxx.Parse.Loop.{last_or}

-- The first flag of the list that is required and was not hit.
unfoldable pub missed_in : {V : Type 0} → List (Flag V) → List ℕ → Outcome (Option ℕ)
missed_in flags [] = done none
missed_in flags (p ∷ ps) =
    let rest = missed_in flags ps in
    from_option (get_elem? flags p) >>= λ flag.
    if flag.required && flag.hit.hit_count == 0 then done (some p) else rest

-- `while ((ptr = ptr->owner()) != nullptr)`, where no flag was missed so far.
abbrev pub or_owner : (ℕ → Outcome (Option ℕ)) → Option ℕ → Option ℕ → Outcome (Option ℕ)
or_owner up (some q) owner = done (some q)
or_owner up none none = done none
or_owner up none (some p) = up p

-- check_required_flags(cc), on fuel: the flag that required_flag_missed is thrown for.
unfoldable pub check_required_flags : {V : Type 0} → ℕ → Parser V → ℕ → Outcome (Option ℕ)
unfolding missed_in
check_required_flags zero s p = unfinished
check_required_flags (suc fuel) s p = elim (get_elem? s.nodes p) [
  | none ↦ fault
  | some node ↦ missed_in s.flags node.all_args >>= λ missed.
      or_owner (check_required_flags fuel s) missed node.owner
]

-- What after_run does at last.
pub data Ending : Type 0 where
  internal_action : Action → Ending
  print_usages : ℕ → Ending
  required_flag_missed : ℕ → Ending
  invokes : ℕ → List Str → Ending

-- after_run(rc, pc, argc, argv), where `help` is the value of the flag help in the store.
unfoldable pub after_run : {V : Type 0} → List Str → Bool → Action → Parser V → Outcome Ending
unfolding check_required_flags last_or
after_run argv help rc s =
    let p = last_or 0 s.pc.matched_commands in
    let args = s.pc.non_commands ++ remain_args argv (s.pc.index + 1) in
    let ending = elim (get_elem? s.nodes p) as (λ o. Outcome Ending) [
      | none ↦ fault
      | some node ↦
          if not (is_empty node.title_long) && is_empty node.all_commands
          then (check_required_flags (suc (length s.nodes)) s p >>= λ missed.
              done (elim missed as (λ o. Ending) [
                | some q ↦ required_flag_missed q
                | none ↦ invokes p args
              ]))
          else done (print_usages p)
    ] in
    if ltb 0 (action_value rc) && ltb (action_value rc) 31
    then done (internal_action rc)
    else if help
    then done (print_usages p)
    else ending
