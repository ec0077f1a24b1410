-- ===== src/Text/Affix/Quotes.antt =====
-- What `strip_quotes` returns.
use cmdr_cxx.Base.{
  ℕ, zero, suc, ◌+◌, ◌<◌, true, false, [], ◌∷◌, ◌++◌, append_assoc, none, some, Str, ◌≡◌, ◌≢◌, refl,
  sym, ap, ◌∙◌, arith, length, length-append, get_elem?, get_elem?-append_length,
  get_elem?-append_lt, take, drop-append_length, take-append_add, All, ltb, is_empty,
}
use cmdr_cxx.Text.Affix.{is_quote, lead_quotes, tail_quotes, strip_quotes}

abbrev pub AreQuotes : Str → Type 0
AreQuotes = All (λ c. is_quote c ≡ true)

abbrev pub IsBare : Str → Type 0
IsBare [] = ⊥
IsBare (c ∷ s) = is_quote c ≡ false

lead-append : (q s : Str) (p : ℕ) → AreQuotes q → IsBare s → lead_quotes (q ++ s) p ≡ p + length q
unfolding lead_quotes
lead-append [] [] p h k = absurd k
lead-append [] (c ∷ s) p h k = rw (k, lead_quotes) (omega arith)
lead-append (c ∷ q) s p (h, hs) k = rw (h, lead_quotes) (lead-append q s (p + 1) hs k ∙ omega arith)

quote_at :
    (u w : Str) (i : ℕ)
    → AreQuotes w
    → i < length w
    → (c : ℕ) × (get_elem? (u ++ w) (length u + i) ≡ some c) × (is_quote c ≡ true)
quote_at [] [] i h k = absurd (omega arith)
quote_at [] (c ∷ w) zero (h, hs) k = (c, refl, h)
quote_at [] (c ∷ w) (suc i) (h, hs) k =
    let e : 0 + suc i ≡ suc (0 + i) = omega arith in rw e (quote_at [] w i hs (omega arith))
quote_at (d ∷ u) w i h k =
    let e : suc (length u) + i ≡ suc (length u + i) = omega arith in rw e (quote_at u w i h k)

tail-append :
    (u w : Str) (n : ℕ)
    → AreQuotes w
    → n < suc (length w)
    → tail_quotes (u ++ w) (length u + n) ≡ tail_quotes (u ++ w) (length u)
unfolding tail_quotes
tail-append u w zero h k = let e : length u + zero ≡ length u = omega arith in rw e
tail-append u w (suc n) h k =
    let e : length u + suc n ≡ suc (length u + n) = omega arith in
    let (c, at, quote) = quote_at u w n h (omega arith) in
    rw (e, at, tail_quotes, quote) (tail-append u w n h (omega arith))

IsBare-append : (b w : Str) → IsBare b → IsBare (b ++ w)
IsBare-append [] w h = absurd h
IsBare-append (c ∷ b) w h = h

not_empty : (s : Str) → 0 < length s → is_empty s ≡ false
not_empty [] h = absurd (omega arith)
not_empty (c ∷ s) h = refl

last_bare :
    (v : Str) (z : ℕ) (w : Str)
    → is_quote z ≡ false
    → AreQuotes w
    → tail_quotes ((v ++ z ∷ []) ++ w) (length ((v ++ z ∷ []) ++ w)) ≡ some (length v)
unfolding tail_quotes
last_bare v z w hz hw =
    let u = v ++ z ∷ [] in
    let all : length (u ++ w) ≡ length u + length w = length-append u w in
    let one : length u ≡ suc (length v) = length-append v (z ∷ []) ∙ omega arith in
    let at : get_elem? (u ++ w) (length v) ≡ some z =
      get_elem?-append_lt u w (length v) (omega arith) ∙ get_elem?-append_length v z in
    rw (all, tail-append u w (length w) hw (omega arith), one, tail_quotes, at, hz)

-- The quotes in front all go; of those behind, only as many go as exceed the quotes in front: the
-- length that is cut out counts from the start of the text, not from the first character kept.
pub strip_quotes-append :
    (q b : Str) (z : ℕ) (w : Str)
    → AreQuotes q
    → IsBare (b ++ z ∷ [])
    → is_quote z ≡ false
    → AreQuotes w
    → strip_quotes (q ++ ((b ++ z ∷ []) ++ w)) ≡ some ((b ++ z ∷ []) ++ take (length q) w)
unfolding strip_quotes
strip_quotes-append q b z w hq hb hz hw =
    let body = b ++ z ∷ [] in
    let whole = q ++ (body ++ w) in
    let regroup : whole ≡ ((q ++ b) ++ z ∷ []) ++ w =
      sym (append_assoc q body w) ∙ ap (λ t. t ++ w) (sym (append_assoc q b (z ∷ []))) in
    let p1 : lead_quotes whole 0 ≡ length q =
      lead-append q (body ++ w) 0 hq (IsBare-append body w hb) ∙ omega arith in
    let p2 : tail_quotes whole (length whole) ≡ some (length (q ++ b)) =
      rw regroup (last_bare (q ++ b) z w hz hw) in
    let n = length-append q b in
    let m = length-append b (z ∷ []) in
    let total = length-append q (body ++ w) in
    let more = length-append body w in
    let full : is_empty whole ≡ false = not_empty whole (omega arith) in
    let kept : ltb (length (q ++ b) + 1) (length q) ≡ false = ground (arith, n) in
    let width : length (q ++ b) + 1 ≡ length body + length q = omega arith in
    rw (
      full,
      p2,
      p1,
      kept,
      width,
      drop-append_length q (body ++ w),
      take-append_add body w (length q),
    )

-- A text of quotes alone is read out of its range.
pub strip_quotes_fault : (q : Str) → AreQuotes q → q ≢ [] → strip_quotes q ≡ none
unfolding strip_quotes tail_quotes
strip_quotes_fault [] h ne = absurd (ne refl)
strip_quotes_fault (c ∷ q) h ne =
    let e : 0 + length (c ∷ q) ≡ length (c ∷ q) = omega arith in
    rw (rw e at (tail-append [] (c ∷ q) (length (c ∷ q)) h (omega arith)))
