-- ===== src/Parse/Word/Values.antt =====
-- A flag that takes a value: `--title=value` and `--title value`.
use cmdr_cxx.Base.{
  ℕ, suc, ◌+◌, ◌≤◌, Bool, true, false, List, [], ◌∷◌, ◌++◌, none, some, Str, length, get_elem?,
  drop, is_empty, is_positive, if◌then◌else◌, ◌≡◌, refl,
}
use cmdr_cxx.Base.Maps.{Map}
use cmdr_cxx.Text.Affix.{strip_quotes}
use cmdr_cxx.Parse.{value_kind, Flag, Node, Context, Parser, Extraction, Setup, done}
use cmdr_cxx.Parse.Scan.{Found, matching_flag_on}
use cmdr_cxx.Parse.Word.{Taken}

-- The flag p is matched at the position of s, takes a value, and has no hook.
pub record TakesValue {V : Type 0} (su : Setup V) (long special : Bool) (li : Node → Map ℕ)
    (s : Parser V) (amr : Found V) (p : ℕ) (flag : Flag V) : Type 0 where
  pub matched : matching_flag_on su.longest_first long special li s ≡ done amr
  pub obj : amr.obj ≡ some p
  pub is_flag : get_elem? amr.flags p ≡ some flag
  pub kind : flag.kind ≡ value_kind
  pub no_hook : su.on_flag_hit p ≡ none
  pub inside : s.pc.pos + amr.matched_length ≤ length s.pc.title

-- The stream takes the whole text for a value, so that tellg() fails behind it.
abbrev pub ReadsAll : {V : Type 0} → Extraction V → Type 0
ReadsAll ex = (is_positive ex.read ≡ false) × (ex.eof ≡ true)

-- What the round leaves: the value was given to the flag, and the index is i.
pub record Given {V : Type 0} (s s' : Parser V) (p : ℕ) (value : V) (i : ℕ) : Type 0 where
  pub args_matched : s'.args_matched ≡ s.args_matched ++ (p, value) ∷ []
  pub matched_flags : s'.pc.matched_flags ≡ s.pc.matched_flags ++ p ∷ []
  pub index : s'.pc.index ≡ i

-- Where the value stands: behind the `=` in the word, without its quotes, or in the next word.
pub data ValueAt (argv : List Str) (pc : Context) (len : ℕ) (value : Str) : ℕ → Type 0 where
  in_word :
      (text : Str)
      → drop (pc.pos + len) pc.title ≡ b'=' ∷ text
      → strip_quotes text ≡ some value
      → is_empty value ≡ false
      → ValueAt argv pc len value pc.index
  in_next :
      drop (pc.pos + len) pc.title ≡ []
      → get_elem? argv (suc pc.index) ≡ some value
      → ValueAt argv pc len value (suc pc.index)

-- What reading the value leaves.
record Got {V : Type 0} (s : Parser V) (t : Taken V) (p : ℕ) (value : V) (i len : ℕ) : Type 0 where
  given : Given s t.parser p value i
  parsed : t.value_parsed ≡ true
  same_title : t.parser.pc.title ≡ s.pc.title
  same_pos : t.parser.pc.pos ≡ s.pc.pos
  at_end : length s.pc.title ≤ s.pc.pos + t.matched_length

if_true : {A : Type 0} (b : Bool) (x y : A) → b ≡ true → (if b then x else y) ≡ x
if_true true x y e = refl
if_true false x y e = cc e

if_false : {A : Type 0} (b : Bool) (x y : A) → b ≡ false → (if b then x else y) ≡ y
if_false true x y e = cc e
if_false false x y e = refl
