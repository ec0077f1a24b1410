-- ===== src/Parse/Word/Rounds.antt =====
-- What one round over a word changes: it goes on further in the word, and the index does not fall
-- behind the word.
use cmdr_cxx.Base.{
  ℕ, zero, suc, ◌+◌, ◌-◌, ◌<◌, ◌≤◌, Bool, true, false, not, ◌&&◌, ◌||◌, List, Option, none, some,
  Str, length, get_elem?, drop, ltb, ltb→lt, is_empty, is_positive, if◌then◌else◌, ◌≡◌, refl, subst,
  ap, ◌∙◌, arith, Option-cases, inl, inr,
}
use cmdr_cxx.Base.Maps.{Map}
use cmdr_cxx.Text.Affix.{strip_quotes}
use cmdr_cxx.Parse.{
  Action, Kind, bool_kind, void_kind, value_kind, Flag, Node, Parser, Setup, Outcome, done,
  from_option,
}
use cmdr_cxx.Parse.Ends.{bind-eq-done}
use cmdr_cxx.Parse.Scan.{Found, matching_flag_on}
use cmdr_cxx.Parse.Scan.Longest.{matched_pos}
use cmdr_cxx.Parse.Word.{
  Taken, Round, size_of_read, again, returns, drop_equals, set_hit_title, add_matched_arg,
  value_text, read_from, read_value, read_switch, take_value, flag_hit, finish_round, unmatched,
  from_match, one_round, next_round, rounds,
}

done_inj : {A : Type 0} (a b : A) → done a ≡ done b → a ≡ b
done_inj a b e = cc e

-- The index is not in front of `start`, and is behind it if a word was taken as a value.
abbrev pub Held : ℕ → Bool → ℕ → Type 0
Held start extra i = (start ≤ i) × (extra ≡ true → start < i)

-- What is left alone.
abbrev pub Same : {V : Type 0} → Parser V → Parser V → Type 0
Same s t = ((t.nodes ≡ s.nodes) × (t.pc.matched_commands ≡ s.pc.matched_commands))

record Read {V : Type 0} (start len : ℕ) (s : Parser V) (t : Taken V) : Type 0 where
  same : Same s t.parser
  same_title : t.parser.pc.title ≡ s.pc.title
  same_pos : t.parser.pc.pos ≡ s.pc.pos
  longer : len ≤ t.matched_length
  index : start ≤ t.parser.pc.index
  held : t.value_parsed ≡ true → Held start t.extra_argv t.parser.pc.index

longer_if :
    (a b c : Bool) (len n m : ℕ)
    → len ≤ (if a then (if b then len + n else if c then len else len + m) else len)
longer_if true true c len n m = omega arith
longer_if true false true len n m = omega arith
longer_if true false false len n m = omega arith
longer_if false b c len n m = omega arith

module _ (start : ℕ) where
  Held-if :
      (b extra : Bool) (i : ℕ)
      → b ≡ true
      → Held start extra i
      → Held start extra (if not b && extra then i - 1 else i)
  Held-if true extra i e h = h
  Held-if false extra i e h = cc e

  back_bound :
      (b extra : Bool) (i : ℕ) → Held start extra i → start ≤ (if b && extra then i - 1 else i)
  back_bound true true i (a, h) = omega (arith, h refl)
  back_bound true false i (a, h) = a
  back_bound false true i (a, h) = a
  back_bound false false i (a, h) = a

module _ {V : Type 0} (su : Setup V) (argv : List Str) (start : ℕ) where
  Held-text :
      (stripped : Str) (i : ℕ) (extra : Bool)
      → Held start extra i
      → Held start (value_text su argv stripped i extra).2 (value_text su argv stripped i extra).1
  unfolding value_text
  Held-text stripped i extra h =
      elim (Option-cases (if is_empty stripped then get_elem? argv (suc i) else none)) [
        | inl e ↦ rw (e, value_text) h
        | inr (text, e) ↦ rw (e, value_text) (omega (arith, h.0), λ _. omega (arith, h.0))
      ]

  read_from-Read :
      (p : ℕ) (old : V) (len orig : ℕ) (x : Str × ℕ × Bool) (s : Parser V)
      → Held start x.2 x.1
      → Read start len s (read_from su argv p old len orig x s)
  unfolding read_from add_matched_arg
  read_from-Read p old len orig (remains, i, extra) s h =
      let ex = su.extract old remains in
      record {
        same = (refl, refl);
        same_title = refl;
        same_pos = refl;
        longer =
            longer_if (is_positive ex.read || ex.eof) (is_positive ex.read) extra len
              (size_of_read ex.read) orig;
        index = back_bound start (not (is_positive ex.read || ex.eof)) extra i h;
        held = λ e. Held-if start (is_positive ex.read || ex.eof) extra i e h;
      }

  read_value-Read :
      (p : ℕ) (flag : Flag V) (len : ℕ) (extra : Bool) (orig : ℕ) (stripped : Str) (s : Parser V)
      → Held start extra s.pc.index
      → Read start len s (read_value su argv p flag len extra orig stripped s)
  unfolding read_value
  read_value-Read p flag len extra orig stripped s h =
      read_from-Read p flag.default_value len orig (value_text su argv stripped s.pc.index extra) s
        (Held-text stripped s.pc.index extra h)

  longer_switch : (a : Bool) (len : ℕ) → len ≤ (if a then len + 1 else len)
  longer_switch true len = omega arith
  longer_switch false len = omega arith

  read_switch-Read :
      (p len : ℕ) (extra : Bool) (s : Parser V)
      → Held start extra s.pc.index
      → Read start len s (read_switch su argv p len extra s)
  unfolding read_switch add_matched_arg
  read_switch-Read p len extra s h = record {
    same = (refl, refl);
    same_title = refl;
    same_pos = refl;
    longer = longer_switch _ len;
    index = h.0;
    held = λ _. h;
  }

  take_value-Read :
      (k : Kind) (p : ℕ) (flag : Flag V) (len : ℕ) (extra : Bool) (s : Parser V) (t : Taken V)
      → Held start extra s.pc.index
      → take_value su argv k p flag len extra s ≡ done t
      → Read start len s t
  unfolding take_value add_matched_arg
  take_value-Read value_kind p flag len extra s t h e =
      let (stripped, _, d) =
        bind-eq-done (from_option (strip_quotes (drop_equals (drop (s.pc.pos + len) s.pc.title)))) _
          t e in
      subst (Read start len s) (done_inj _ t d)
        (read_value-Read p flag len extra (length (drop (s.pc.pos + len) s.pc.title)) stripped s h)
  take_value-Read bool_kind p flag len extra s t h e =
      subst (Read start len s) (done_inj _ t e) (read_switch-Read p len extra s h)
  take_value-Read void_kind p flag len extra s t h e =
      subst (Read start len s) (done_inj _ t e) (record {
        same = (refl, refl);
        same_title = refl;
        same_pos = refl;
        longer = omega arith;
        index = h.0;
        held = λ _. h;
      })

-- What a round does.
pub record Goes {V : Type 0} (start : ℕ) (s s' : Parser V) (extra : Bool) : Type 0 where
  pub same : Same s s'
  pub same_title : s'.pc.title ≡ s.pc.title
  pub further : s.pc.pos < s'.pc.pos
  pub inside : s'.pc.pos < length s'.pc.title
  pub held : Held start extra s'.pc.index

abbrev pub RoundOf : {V : Type 0} → ℕ → Parser V → Round V → Type 0
RoundOf start s (again s' extra rc) = Goes start s s' extra
RoundOf start s (returns s' rc) = (Same s s' × (start ≤ s'.pc.index))

if_rounds :
    {A : Type 0} (P : A → Type 0) (a b c : Bool) {w x y z : A}
    → P w
    → P x
    → (b ≡ true → c ≡ true → P y)
    → P z
    → P (if a then w else if not b then x else if c then y else z)
if_rounds P true b c w x y z = w
if_rounds P false false c w x y z = x
if_rounds P false true true w x y z = y refl refl
if_rounds P false true false w x y z = z

next_round-Same :
    {V : Type 0} (start : ℕ) (s s' : Parser V) (rc' : Action)
    (loop : Parser V → Bool → Action → Outcome (Parser V × Action))
    → ((t : Parser V) (x : Bool) (c : Action)
        → Held start x t.pc.index
        → loop t x c ≡ done (s', rc')
        → Same t s' × (start ≤ s'.pc.index))
    → (r : Round V) → RoundOf start s r
    → next_round loop r ≡ done (s', rc')
    → Same s s' × (start ≤ s'.pc.index)
next_round-Same start s s' rc' loop h (returns t c) ok g =
    subst (λ z. Same s z × (start ≤ z.pc.index)) (ap (λ z. z.0) (done_inj _ _ g)) ok
next_round-Same start s s' rc' loop h (again t x c) ok g =
    let ((a, b), i) = h t x c ok.held g in ((a ∙ ok.same.0, b ∙ ok.same.1), i)

module _ {V : Type 0} (su : Setup V) (argv : List Str) (start : ℕ) where
  finish_round-RoundOf :
      (p : ℕ) (text : Str) (rc : Action) (s : Parser V) (len : ℕ) (t : Taken V)
      → 0 < len
      → Read start len s t
      → RoundOf start s (finish_round su argv p text rc t)
  unfolding finish_round
  finish_round-RoundOf p text rc s len t l r =
      if_rounds (RoundOf start s) (flag_hit su argv p t.parser.pc.index rc).1 t.value_parsed
        (ltb (t.parser.pc.pos + t.matched_length) (length t.parser.pc.title)) (r.same, r.index)
        (r.same, r.index)
        (λ b c. record {
          same = r.same;
          same_title = r.same_title;
          further = omega (arith, l, r.longer, r.same_pos);
          inside = ltb→lt (t.parser.pc.pos + t.matched_length) (length t.parser.pc.title) c;
          held = r.held b;
        })
        (r.same, r.index)

  from_match-RoundOf :
      (s : Parser V) (extra : Bool) (rc : Action) (amr : Found V) (o : Option ℕ) (r : Round V)
      → ((p : ℕ) → o ≡ some p → 0 < amr.matched_length)
      → Held start extra s.pc.index
      → from_match su argv s extra rc amr o ≡ done r
      → RoundOf start s r
  unfolding from_match unmatched set_hit_title
  from_match-RoundOf s extra rc amr none r l h e =
      subst (RoundOf start s) (done_inj _ r e) ((refl, refl), h.0)
  from_match-RoundOf s extra rc amr (some p) r l h e =
      let s1 = set_hit_title p amr.matched_str (record s { flags = amr.flags }) in
      let (flag, _, d) = bind-eq-done (from_option (get_elem? s1.flags p)) _ r e in
      let (t, f, g) =
        bind-eq-done (take_value su argv flag.kind p flag amr.matched_length extra s1) _ r d in
      let read = take_value-Read su argv start flag.kind p flag amr.matched_length extra s1 t h f in
      subst (RoundOf start s) (done_inj _ r g) (
        finish_round-RoundOf p amr.matched_str rc s amr.matched_length t (l p refl) (record {
          same = read.same;
          same_title = read.same_title;
          same_pos = read.same_pos;
          longer = read.longer;
          index = read.index;
          held = read.held;
        }))

  module _ (longest : su.longest_first ≡ true) (is_long is_special : Bool) (li : Node → Map ℕ) where
    pub one_round-RoundOf :
        (s : Parser V) (extra : Bool) (rc : Action) (r : Round V)
        → Held start extra s.pc.index
        → one_round su argv is_long is_special li s extra rc ≡ done r
        → RoundOf start s r
    unfolding one_round
    one_round-RoundOf s extra rc r h e =
        let (amr, f, g) =
          bind-eq-done (matching_flag_on su.longest_first is_long is_special li s) _ r e in
        from_match-RoundOf s extra rc amr amr.obj r
          (λ p o.
            matched_pos is_long is_special li s amr p
              (subst (λ b. matching_flag_on b is_long is_special li s ≡ done amr) longest f) o)
          h g

    -- The rounds leave the commands alone, and the index does not fall behind the word.
    pub rounds-Same :
        (fuel : ℕ) (s : Parser V) (extra : Bool) (rc : Action) (s' : Parser V) (rc' : Action)
        → Held start extra s.pc.index
        → rounds su argv is_long is_special li fuel s extra rc ≡ done (s', rc')
        → Same s s' × (start ≤ s'.pc.index)
    unfolding rounds
    rounds-Same zero s extra rc s' rc' h e = cc e
    rounds-Same (suc fuel) s extra rc s' rc' h e =
        let (r, f, g) =
          bind-eq-done (one_round su argv is_long is_special li s extra rc) _ (s', rc') e in
        next_round-Same start s s' rc' (rounds su argv is_long is_special li fuel)
          (λ t x c. rounds-Same fuel t x c s' rc') r (one_round-RoundOf s extra rc r h f) g
