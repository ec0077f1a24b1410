-- ===== src/Text/Replace/Loop.antt =====
-- The loop of `replace_all`, seen from the text behind its position.
use cmdr_cxx.Base.{
  ℕ, zero, suc, ◌+◌, ◌<◌, [], ◌∷◌, ◌++◌, append_assoc, none, some, Str, ◌≡◌, ◌≢◌, refl, ap, ◌∙◌,
  arith, length, take, drop, length-append, length-drop, length-take, take-append_add,
  take-append-drop, drop-add, drop-append_length, find_str, Option-cases, inl, inr,
}
use cmdr_cxx.Text.Find.{find_str_sound, find_from_eq}
use cmdr_cxx.Text.Replace.{replace_loop, splice, replace_all}

-- Each occurrence from the left is replaced, in at most so many rounds.
unfoldable pub replaced : ℕ → Str → Str → Str → Str
replaced zero from to r = r
replaced (suc fuel) from to r = elim (find_str from r) [
  | none ↦ r
  | some k ↦ take k r ++ (to ++ replaced fuel from to (drop (k + length from) r))
]

pub length_pos : (s : Str) → s ≢ [] → 0 < length s
length_pos [] h = absurd (h refl)
length_pos (c ∷ s) h = omega arith

-- What is behind an occurrence is shorter.
pub length-drop_lt :
    (from r : Str) (k : ℕ)
    → from ≢ []
    → find_str from r ≡ some k
    → length (drop (k + length from) r) < length r
length-drop_lt from r k ne h =
    omega
      (arith, length-drop (k + length from) r, length_pos from ne, (find_str_sound from r k h).1)

splice-append :
    (done r to : Str) (k n : ℕ)
    → splice (done ++ r) (length done + k) n to ≡ (done ++ (take k r ++ to)) ++ drop (k + n) r
splice-append done r to k n =
    let e : length done + k + n ≡ length done + (k + n) = omega arith in
    rw
      (
        e,
        take-append_add done r k,
        drop-add (length done) (k + n) (done ++ r),
        drop-append_length done r,
      )
      (simp append_assoc)

pub replace_loop-replaced :
    (fuel : ℕ) (from to done r : Str)
    → from ≢ []
    → length r < fuel
    → replace_loop fuel (done ++ r) from to (length done) ≡ some (done ++ replaced fuel from to r)
unfolding replace_loop replaced
replace_loop-replaced zero from to done r ne h = absurd (omega arith)
replace_loop-replaced (suc fuel) from to done r ne h = elim (Option-cases (find_str from r)) [
  | inl e ↦ rw (
    find_from_eq from (done ++ r) r (length done) none (drop-append_length done r) e,
    replace_loop,
    e,
    replaced,
  )
  | inr (k, e) ↦
      let fits = (find_str_sound from r k e).1 in
      let here : length done + k + length to ≡ length (done ++ (take k r ++ to)) = omega (
        arith,
        length-append done (take k r ++ to),
        length-append (take k r) to,
        length-take k r,
      ) in
      rw
        (
          find_from_eq from (done ++ r) r (length done) (some k) (drop-append_length done r) e,
          replace_loop,
          e,
          replaced,
          splice-append done r to k (length from),
          here,
        )
        (replace_loop-replaced fuel from to (done ++ (take k r ++ to)) (drop (k + length from) r) ne
            (omega (arith, length-drop_lt from r k ne e))
          ∙ ap some (simp append_assoc))
]

-- Replacing a text by itself changes nothing.
pub replaced_self : (fuel : ℕ) (from r : Str) → replaced fuel from from r ≡ r
unfolding replaced
replaced_self zero from r = refl
replaced_self (suc fuel) from r = elim (Option-cases (find_str from r)) [
  | inl e ↦ rw (e, replaced)
  | inr (k, e) ↦
      rw
        (
          e,
          replaced,
          replaced_self fuel from (drop (k + length from) r),
          ← (find_str_sound from r k e).0,
        )
        (take-append-drop k r)
]

pub replace_all-replaced :
    (str from to : Str)
    → from ≢ []
    → replace_all str from to ≡ some (replaced (suc (length str)) from to str)
unfolding replace_all
replace_all-replaced str [] to ne = absurd (ne refl)
replace_all-replaced str (c ∷ from) to ne =
    replace_loop-replaced (suc (length str)) (c ∷ from) to [] str ne (omega arith)
