-- ===== src/Parse/Word/Ends.antt =====
-- process_flag comes to an end: every round but the last goes on further in the word.
use cmdr_cxx.Base.{
  ℕ, zero, suc, ◌+◌, ◌-◌, ◌<◌, ◌≤◌, Bool, true, false, List, length, get_elem?, drop, Option, none,
  some, Str, ◌≡◌, sym, subst, ap, arith,
}
use cmdr_cxx.Base.Maps.{Map}
use cmdr_cxx.Text.Affix.{strip_quotes}
use cmdr_cxx.Parse.{
  Action, continue, Kind, bool_kind, void_kind, value_kind, Flag, Node, Parser, Setup, Outcome,
  done, from_option,
}
use cmdr_cxx.Parse.Ends.{Ends, Ends-bind, Ends-done, Ends-from_option}
use cmdr_cxx.Parse.Scan.{Found, matching_flag_on}
use cmdr_cxx.Parse.Scan.Lineage.{OwnersPrecede, matching_flag_on-Ends}
use cmdr_cxx.Parse.Word.{
  Round, again, returns, take_value, drop_equals, set_hit_title, from_match, one_round, next_round,
  rounds, process_flag,
}
use cmdr_cxx.Parse.Word.Rounds.{Held, Same, Goes, RoundOf, one_round-RoundOf, rounds-Same}

next_round-Ends :
    {V : Type 0} (start : ℕ) (s : Parser V)
    (loop : Parser V → Bool → Action → Outcome (Parser V × Action))
    → ((t : Parser V) (x : Bool) (c : Action) → Goes start s t x → Ends (loop t x c))
    → (r : Round V) → RoundOf start s r
    → Ends (next_round loop r)
next_round-Ends start s loop h (returns t c) ok = Ends-done (t, c)
next_round-Ends start s loop h (again t x c) ok = h t x c ok

module _ {V : Type 0} (su : Setup V) (argv : List Str) where
  take_value-Ends :
      (k : Kind) (p : ℕ) (flag : Flag V) (len : ℕ) (extra : Bool) (s : Parser V)
      → Ends (take_value su argv k p flag len extra s)
  unfolding take_value
  take_value-Ends value_kind p flag len extra s =
      Ends-bind (from_option (strip_quotes (drop_equals (drop (s.pc.pos + len) s.pc.title)))) _
        (Ends-from_option _) (λ x _. Ends-done _)
  take_value-Ends bool_kind p flag len extra s = Ends-done _
  take_value-Ends void_kind p flag len extra s = Ends-done _

  from_match-Ends :
      (s : Parser V) (extra : Bool) (rc : Action) (amr : Found V) (o : Option ℕ)
      → Ends (from_match su argv s extra rc amr o)
  unfolding from_match
  from_match-Ends s extra rc amr none = Ends-done _
  from_match-Ends s extra rc amr (some p) =
      let s1 = set_hit_title p amr.matched_str (record s { flags = amr.flags }) in
      Ends-bind (from_option (get_elem? s1.flags p)) _ (Ends-from_option _) (λ flag _.
        Ends-bind (take_value su argv flag.kind p flag amr.matched_length extra s1) _
          (take_value-Ends flag.kind p flag amr.matched_length extra s1) (λ t _. Ends-done _))

  module _ (is_long is_special : Bool) (li : Node → Map ℕ) where
    one_round-Ends :
        (s : Parser V) (extra : Bool) (rc : Action)
        → OwnersPrecede s.nodes
        → Ends (one_round su argv is_long is_special li s extra rc)
    unfolding one_round
    one_round-Ends s extra rc w =
        Ends-bind (matching_flag_on su.longest_first is_long is_special li s) _
          (matching_flag_on-Ends su.longest_first is_long is_special li s w)
          (λ amr _. from_match-Ends s extra rc amr amr.obj)

    rounds-Ends :
        su.longest_first ≡ true
        → (fuel start : ℕ) (s : Parser V) (extra : Bool) (rc : Action) → OwnersPrecede s.nodes
        → Held start extra s.pc.index
        → length s.pc.title - s.pc.pos < fuel
        → Ends (rounds su argv is_long is_special li fuel s extra rc)
    unfolding rounds
    rounds-Ends longest zero start s extra rc w h f = absurd (omega (arith, f))
    rounds-Ends longest (suc fuel) start s extra rc w h f =
        Ends-bind (one_round su argv is_long is_special li s extra rc) _
          (one_round-Ends s extra rc w)
          (λ r e.
            next_round-Ends start s (rounds su argv is_long is_special li fuel)
              (λ t x c g.
                rounds-Ends longest fuel start t x c (subst OwnersPrecede (sym g.same.0) w) g.held
                  (omega (arith, f, g.further, g.inside, ap length g.same_title)))
              r (one_round-RoundOf su argv start longest is_long is_special li s extra rc r h e))

    pub process_flag-Ends :
        su.longest_first ≡ true
        → (leading_chars : ℕ) (s : Parser V) → OwnersPrecede s.nodes
        → Ends (process_flag su argv is_long is_special li leading_chars s)
    unfolding process_flag
    process_flag-Ends longest leading_chars s w =
        let s' = record s { pc = record s.pc { title = drop leading_chars s.pc.title } } in
        rounds-Ends longest (suc (length s'.pc.title)) s.pc.index s' false continue w
          (omega arith, λ e. cc e) (omega arith)

    pub process_flag-Same :
        su.longest_first ≡ true
        → (leading_chars : ℕ) (s : Parser V) (s' : Parser V) (rc' : Action)
        → process_flag su argv is_long is_special li leading_chars s ≡ done (s', rc')
        → Same s s' × (s.pc.index ≤ s'.pc.index)
    unfolding process_flag
    process_flag-Same longest leading_chars s s' rc' e =
        let t = record s { pc = record s.pc { title = drop leading_chars s.pc.title } } in
        rounds-Same su argv s.pc.index longest is_long is_special li (suc (length t.pc.title)) t
          false continue s' rc' (omega arith, λ e. cc e) e
