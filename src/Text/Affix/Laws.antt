-- ===== src/Text/Affix/Laws.antt =====
-- What the tests for a prefix and a suffix decide, and what `strip` and `trim` leave.
use cmdr_cxx.Base.{
  ℕ, ◌+◌, ◌-◌, ◌<◌, ◌≤◌, true, [], ◌∷◌, ◌++◌, append_assoc, Str, ◌≡◌, refl, sym, ap, ◌∙◌, arith,
  length, length-append, length-drop, take, drop, take-append-drop, take-append_length,
  drop-append_length, take_all, leb, leb→le, str_eq, str_eq_iff, str_eq_refl, substr, Bool-cases,
  inl, inr, ◌↔◌, is_empty,
}
use cmdr_cxx.Text.Affix.{size_mod, size_sub, has_prefix, has_suffix, strip}

pub has_prefix-append : (p r : Str) → has_prefix (p ++ r) p ≡ true
unfolding has_prefix
has_prefix-append p r =
    let fits : leb (length p) (length (p ++ r)) ≡ true = ground (arith, length-append p r) in
    rw (fits, take-append_length p r) (str_eq_refl p)

pub has_suffix-append : (r p : Str) → has_suffix (r ++ p) p ≡ true
unfolding has_suffix
has_suffix-append r p =
    let fits : leb (length p) (length (r ++ p)) ≡ true = ground (arith, length-append r p) in
    let at : length (r ++ p) - length p ≡ length r = omega (arith, length-append r p) in
    rw (fits, at, drop-append_length r p, take_all (length p) p (omega arith)) (str_eq_refl p)

-- has_prefix tells exactly whether the text is the prefix and something behind it.
pub has_prefix_iff : (s p : Str) → (has_prefix s p ≡ true) ↔ ((r : Str) × (s ≡ p ++ r))
has_prefix_iff s p = (to, from)
  where
    to : has_prefix s p ≡ true → (r : Str) × (s ≡ p ++ r)
    to h = (
      drop (length p) s,
      let e : take (length p) s ≡ p =
            (str_eq_iff (take (length p) s) p).0 (unfold has_prefix in ground (arith, h)) in
          sym (take-append-drop (length p) s) ∙ ap (λ t. t ++ drop (length p) s) e,
    )

    from : ((r : Str) × (s ≡ p ++ r)) → has_prefix s p ≡ true
    from (r, e) = rw e (has_prefix-append p r)

-- has_suffix tells exactly whether the text is something and the suffix behind it.
pub has_suffix_iff : (s p : Str) → (has_suffix s p ≡ true) ↔ ((r : Str) × (s ≡ r ++ p))
has_suffix_iff s p = (to, from)
  where
    to : has_suffix s p ≡ true → (r : Str) × (s ≡ r ++ p)
    to h =
        let n = length s - length p in
        let same : str_eq (take (length p) (drop n s)) p ≡ true =
          unfold has_suffix in ground (arith, h) in
        let fits : leb (length p) (length s) ≡ true = unfold has_suffix in ground (arith, h) in
        let whole : take (length p) (drop n s) ≡ drop n s =
          take_all (length p) (drop n s) (omega (arith, length-drop n s, leb→le _ _ fits)) in
        let e = (str_eq_iff (take (length p) (drop n s)) p).0 same in
        (take n s, sym (take-append-drop n s) ∙ ap (λ t. take n s ++ t) (sym whole ∙ e))

    from : ((r : Str) × (s ≡ r ++ p)) → has_suffix s p ≡ true
    from (r, e) = rw e (has_suffix-append r p)

size_sub_le : (a b : ℕ) → b ≤ a → a < size_mod → size_sub a b ≡ a - b
size_sub_le a b h k = omega arith

empty_eq : (s t : Str) → is_empty s ≡ true → length t ≤ length s → s ≡ t
empty_eq [] [] e h = refl
empty_eq [] (c ∷ t) e h = absurd (omega arith)
empty_eq (c ∷ s) t e h = cc

-- A prefix and a suffix that were put around a text are stripped off again.
pub strip-append :
    (pre s post : Str)
    → length (pre ++ (s ++ post)) < size_mod
    → strip (pre ++ (s ++ post)) pre post ≡ s
unfolding strip
strip-append pre s post h =
    let whole = pre ++ (s ++ post) in
    let regroup : whole ≡ (pre ++ s) ++ post = sym (append_assoc pre s post) in
    let a = length-append pre (s ++ post) in
    let b = length-append s post in
    let p2 : size_sub (length whole) (length post) ≡ length pre + length s =
      size_sub_le (length whole) (length post) (omega arith) h ∙ omega arith in
    let width : size_sub (length pre + length s) (length pre) ≡ length s =
      size_sub_le (length pre + length s) (length pre) (omega arith) (omega arith) ∙ omega arith in
    let suffix : has_suffix whole post ≡ true = rw regroup (has_suffix-append (pre ++ s) post) in
    let cut : substr whole (length pre) (length s) ≡ s =
      rw (drop-append_length pre (s ++ post)) (take-append_length s post) in
    let result : substr whole (length pre)
          (size_sub (size_sub (length whole) (length post)) (length pre))
        ≡ s =
      rw (p2, width) cut in
    elim (Bool-cases (is_empty whole)) [
      | inl e ↦ rw e (empty_eq whole s e (omega arith))
      | inr e ↦ rw (e, has_prefix-append pre (s ++ post), suffix) result
    ]
