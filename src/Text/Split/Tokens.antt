-- ===== src/Text/Split/Tokens.antt =====
-- What both forms of `tokenize` return.
use cmdr_cxx.Base.{
  ℕ, Bool, true, false, List, [], ◌∷◌, ◌++◌, append_assoc, append-nil, Option, none, some, Str,
  ◌==◌, ◌≡◌, ◌≢◌, refl, sym, All, All-append, ◌∙◌, Bool-cases, inl, inr, if◌then◌else◌,
}
use cmdr_cxx.Text.Split.{tokens_loop, tokenize, ranges_loop, tokenize_at, flush, join}
use cmdr_cxx.Text.Split.Join.{separated, join_loop-cons}

abbrev pub pending : Option Str → Str
pending none = []
pending (some t) = t

-- A token that has begun is not empty.
abbrev pub Begun : Option Str → Type 0
Begun none = Unit
Begun (some t) = t ≢ []

append-ne-nil : (t : Str) (c : ℕ) → t ++ c ∷ [] ≢ []
append-ne-nil [] c = λ e. cc
append-ne-nil (d ∷ t) c = λ e. cc

flush_some : (v : List Str) (t : Str) → t ≢ [] → flush v t ≡ v ++ t ∷ []
flush_some v [] h = absurd (h refl)
flush_some v (c ∷ t) h = refl

ranges-tokens :
    (sep : ℕ) (s : Str) (start : Option Str) (v : List Str)
    → Begun start
    → ranges_loop sep s start v ≡ tokens_loop (λ c. c == sep) s v (pending start)
unfolding ranges_loop tokens_loop
ranges-tokens sep [] none v b = refl
ranges-tokens sep [] (some t) v b = sym (flush_some v t b)
ranges-tokens sep (c ∷ s) none v b = elim (Bool-cases (c == sep)) [
  | inl e ↦ rw (e, ranges_loop, tokens_loop) (ranges-tokens sep s none v tt)
  | inr e ↦ rw (e, ranges_loop, tokens_loop) (ranges-tokens sep s (some (c ∷ [])) v (λ e. cc))
]
ranges-tokens sep (c ∷ s) (some t) v b = elim (Bool-cases (c == sep)) [
  | inl e ↦
      rw (e, flush_some v t b, ranges_loop, tokens_loop) (ranges-tokens sep s none (v ++ t ∷ []) tt)
  | inr e ↦
      rw (e, ranges_loop, tokens_loop)
        (ranges-tokens sep s (some (t ++ c ∷ [])) v (append-ne-nil t c))
]

-- Cutting at one character is cutting at white space, with that character as the only white space.
pub tokenize_at-tokenize : (s : Str) (c : ℕ) → tokenize_at s c ≡ tokenize (λ d. d == c) s
unfolding tokenize_at tokenize
tokenize_at-tokenize s c = ranges-tokens c s none [] tt

module _ (isspace : ℕ → Bool) where
  abbrev pub IsToken : Str → Type 0
  IsToken t = (t ≢ []) × All (λ c. isspace c ≡ false) t

  -- The characters that are not white space, in order.
  pub visible : Str → Str
  visible [] = []
  visible (c ∷ s) = if isspace c then visible s else c ∷ visible s

  pub spelled : List Str → Str
  spelled [] = []
  spelled (t ∷ ts) = t ++ spelled ts

  spelled-append : (xs ys : List Str) → spelled (xs ++ ys) ≡ spelled xs ++ spelled ys
  unfolding spelled
  spelled-append [] ys = refl
  spelled-append (x ∷ xs) ys = simp (spelled-append xs ys, append_assoc)

  spelled-flush : (ts : List Str) (t : Str) → spelled (flush ts t) ≡ spelled ts ++ t
  unfolding spelled
  spelled-flush ts [] = sym (append-nil (spelled ts))
  spelled-flush ts (c ∷ t) = rw (spelled-append ts ((c ∷ t) ∷ []), spelled, append-nil)

  flush-IsToken :
      (ts : List Str) (t : Str)
      → All IsToken ts
      → All (λ c. isspace c ≡ false) t
      → All IsToken (flush ts t)
  flush-IsToken ts [] h k = h
  flush-IsToken ts (c ∷ t) h k = All-append IsToken ts ((c ∷ t) ∷ []) h (((λ e. cc), k), tt)

  loop-IsToken :
      (s : Str) (ts : List Str) (t : Str)
      → All IsToken ts
      → All (λ c. isspace c ≡ false) t
      → All IsToken (tokens_loop isspace s ts t)
  unfolding tokens_loop
  loop-IsToken [] ts t h k = flush-IsToken ts t h k
  loop-IsToken (c ∷ s) ts t h k = elim (Bool-cases (isspace c)) [
    | inl e ↦ rw (e, tokens_loop) (loop-IsToken s (flush ts t) [] (flush-IsToken ts t h k) tt)
    | inr e ↦
        rw (e, tokens_loop) (loop-IsToken s ts (t ++ c ∷ []) h (All-append _ t (c ∷ []) k (e, tt)))
  ]

  loop-visible :
      (s : Str) (ts : List Str) (t : Str)
      → spelled (tokens_loop isspace s ts t) ≡ (spelled ts ++ t) ++ visible s
  unfolding tokens_loop visible
  loop-visible [] ts t = rw (append-nil) (spelled-flush ts t)
  loop-visible (c ∷ s) ts t = elim (Bool-cases (isspace c)) [
    | inl e ↦
        rw (e, tokens_loop) (loop-visible s (flush ts t) [] ∙ rw (append-nil, spelled-flush ts t))
    | inr e ↦ rw (e, tokens_loop) (loop-visible s ts (t ++ c ∷ []) ∙ simp append_assoc)
  ]

  -- Every token is a non-empty run of characters that are not white space, and the tokens in
  -- their order hold exactly the characters of the text that are not white space.
  pub tokenize_sound :
      (s : Str) → All IsToken (tokenize isspace s) × (spelled (tokenize isspace s) ≡ visible s)
  unfolding tokenize spelled
  tokenize_sound s = (loop-IsToken s [] [] tt tt, loop-visible s [] [])

  loop-word :
      (w : Str) (rest : Str) (ts : List Str) (t : Str)
      → All (λ c. isspace c ≡ false) w
      → tokens_loop isspace (w ++ rest) ts t ≡ tokens_loop isspace rest ts (t ++ w)
  unfolding tokens_loop
  loop-word [] rest ts t h = rw append-nil
  loop-word (c ∷ w) rest ts t (h, k) =
      rw (h, tokens_loop) (loop-word w rest ts (t ++ c ∷ []) k ∙ simp append_assoc)

  module _ (d : ℕ) (space : isspace d ≡ true) where
    loop-separated :
        (us : List Str) (ts : List Str) (t : Str)
        → t ≢ []
        → All IsToken us
        → tokens_loop isspace (separated (d ∷ []) us) ts t ≡ ts ++ t ∷ us
    unfolding tokens_loop separated
    loop-separated [] ts t ne h = flush_some ts t ne
    loop-separated (u ∷ us) ts t ne ((une, uh), h) =
        rw (space, tokens_loop, flush_some ts t ne)
          (loop-word u (separated (d ∷ []) us) (ts ++ t ∷ []) [] uh
            ∙ loop-separated us (ts ++ t ∷ []) u une h
            ∙ append_assoc ts (t ∷ []) (u ∷ us))

    -- Tokens joined by a white-space character are cut apart again.
    pub tokenize-join : (ts : List Str) → All IsToken ts → tokenize isspace (join ts d 0 0) ≡ ts
    unfolding tokenize join tokens_loop
    tokenize-join [] h = refl
    tokenize-join (t ∷ ts) ((ne, k), h) =
        rw (append-nil, join_loop-cons (d ∷ []) t ts [])
          (loop-word t (separated (d ∷ []) ts) [] [] k ∙ loop-separated ts [] t ne h)
