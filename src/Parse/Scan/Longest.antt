-- ===== src/Parse/Scan/Longest.antt =====
-- With _longest_first the match is the longest title that begins the text, whatever the order in
-- which the maps are walked.
use cmdr_cxx.Base.{
  ℕ, ◌<◌, ◌≤◌, Bool, true, false, ◌&&◌, List, [], ◌∷◌, ◌++◌, some, Str, drop, length, ltb, ltb→lt,
  if◌then◌else◌, ◌≡◌, ◌≢◌, refl, sym, subst, ap, ◌∙◌, arith, Bool-cases, inl, inr, ◌⊎◌, Among,
  Among-append_left, Among-append_right, Among-append_cases,
}
use cmdr_cxx.Base.Maps.{Map}
use cmdr_cxx.Text.Affix.{has_prefix}
use mathlib.Core.List.{reverse}
use cmdr_cxx.Parse.{Node, Parser, done}
use cmdr_cxx.Parse.Ends.{bind-eq-done}
use cmdr_cxx.Parse.Scan.{
  Found, take_match, scan_map, scan_maps, nothing_found, all_maps, matching_flag_on,
}

-- The map has the title with the pointer.
abbrev pub Entry : Str → ℕ → Map ℕ → Type 0
Entry key p m = Among {A = Str × ℕ} (key, p) m

-- The entries of several maps.
abbrev pub entries : List (Map ℕ) → Map ℕ
entries [] = []
entries (m ∷ ms) = m ++ entries ms

-- What the walk over the entries `m` of one map or of several makes of s.
pub record Longest {V : Type 0} (title : Str) (m : Map ℕ) (s r : Found V) : Type 0 where
  pub grown : s.matched_length ≤ r.matched_length
  pub longest :
      (key : Str) (p : ℕ)
      → Entry key p m
      → has_prefix title key ≡ true
      → length key ≤ r.matched_length
  pub match :
      ((r.obj ≡ s.obj) × (r.matched_length ≡ s.matched_length) × (r.matched_str ≡ s.matched_str))
      ⊎ ((p : ℕ) × (r.obj ≡ some p)
          × Entry r.matched_str p m
          × (has_prefix title r.matched_str ≡ true)
          × (r.matched_length ≡ length r.matched_str)
          × (s.matched_length < r.matched_length))

done_inj : {A : Type 0} (a b : A) → done a ≡ done b → a ≡ b
done_inj a b e = cc e

not_lt : (a b : ℕ) → ltb a b ≡ false → b ≤ a
not_lt a b h = ground arith

module _ (title : Str) where
  outside :
      (key : Str) (p : ℕ)
      → has_prefix title key ≡ false
      → (k : Str) (q : ℕ) → Entry k q ((key, p) ∷ [])
      → has_prefix title k ≢ true
  outside key p b k q (inl e) h = cc (b, ap (λ x. has_prefix title x.0) e, h)
  outside key p b k q (inr a) h = absurd a

  inside : (key : Str) (p : ℕ) (k : Str) (q : ℕ) → Entry k q ((key, p) ∷ []) → length k ≤ length key
  inside key p k q (inl e) = omega (arith, ap (λ x. length x.0) e)
  inside key p k q (inr a) = absurd a

module _ {V : Type 0} (title : Str) where
  -- The entry in front.
  abbrev picked : Str → ℕ → Found V → Found V
  picked key p s =
      if has_prefix title key && ltb s.matched_length (length key) then take_match key p s else s

  Longest-one : (key : Str) (p : ℕ) (s : Found V) → Longest title ((key, p) ∷ []) s (picked key p s)
  unfolding take_match
  Longest-one key p s = elim (Bool-cases (has_prefix title key)) [
    | inr b ↦ rw b (record {
      grown = omega arith;
      longest = λ k q a h. absurd (outside title key p b k q a h);
      match = inl (refl, refl, refl);
    })
    | inl b ↦ elim (Bool-cases (ltb s.matched_length (length key))) [
      | inl l ↦
          rw (b, l)
            (record {
              grown = omega (arith, ltb→lt s.matched_length (length key) l);
              longest = λ k q a h. inside title key p k q a;
              match = inr (p, refl, inl refl, b, refl, ltb→lt s.matched_length (length key) l);
            })
      | inr l ↦
          rw (b, l)
            (record {
              grown = omega arith;
              longest = λ k q a h.
                  omega (arith, inside title key p k q a, not_lt s.matched_length (length key) l);
              match = inl (refl, refl, refl);
            })
    ]
  ]

  Matched : Map ℕ → Found V → Found V → Type 0
  Matched m s r =
      ((r.obj ≡ s.obj) × (r.matched_length ≡ s.matched_length) × (r.matched_str ≡ s.matched_str))
      ⊎ ((p : ℕ) × (r.obj ≡ some p)
          × Entry r.matched_str p m
          × (has_prefix title r.matched_str ≡ true)
          × (r.matched_length ≡ length r.matched_str)
          × (s.matched_length < r.matched_length))

  Longest-found :
      (m n : Map ℕ) (s t r : Found V)
      → Longest title m s t
      → Longest title n t r
      → (k : Str) (p : ℕ) → Entry k p m ⊎ Entry k p n
      → has_prefix title k ≡ true
      → length k ≤ r.matched_length
  Longest-found m n s t r a b k p (inl i) h = omega (arith, a.longest k p i h, b.grown)
  Longest-found m n s t r a b k p (inr i) h = b.longest k p i h

  match_of :
      (m n : Map ℕ) (s t r : Found V)
      → s.matched_length ≤ t.matched_length
      → Matched m s t
      → Matched n t r
      → Matched (m ++ n) s r
  unfolding Matched
  match_of m n s t r g a (inr (p, o, e, h, l, d)) =
      inr (p, o, Among-append_right (r.matched_str, p) m n e, h, l, omega (arith, g, d))
  match_of m n s t r g (inl (o, l, w)) (inl (o', l', w')) = inl (o' ∙ o, l' ∙ l, w' ∙ w)
  match_of m n s t r g (inr (p, o, e, h, l, d)) (inl (o', l', w')) = inr (
    p,
    o' ∙ o,
    Among-append_left (r.matched_str, p) m n (subst (λ x. Entry x p m) (sym w') e),
    subst (λ x. has_prefix title x ≡ true) (sym w') h,
    l' ∙ l ∙ ap length (sym w'),
    omega (arith, d, l'),
  )

  Longest-append :
      (m n : Map ℕ) (s t r : Found V)
      → Longest title m s t
      → Longest title n t r
      → Longest title (m ++ n) s r
  unfolding Matched
  Longest-append m n s t r a b = record {
    grown = omega (arith, a.grown, b.grown);
    longest = λ k p i h. Longest-found m n s t r a b k p (Among-append_cases (k, p) m n i) h;
    match = match_of m n s t r a.grown a.match b.match;
  }

  Longest-none : (s : Found V) → Longest title [] s s
  Longest-none s = record {
    grown = omega arith;
    longest = λ k p a h. absurd a;
    match = inl (refl, refl, refl);
  }

  scan_map-Longest : (m : Map ℕ) (s : Found V) → Longest title m s (scan_map true title m s)
  unfolding scan_map
  scan_map-Longest [] s = Longest-none s
  scan_map-Longest ((key, p) ∷ m) s =
      Longest-append ((key, p) ∷ []) m s (picked key p s) (scan_map true title m (picked key p s))
        (Longest-one key p s) (scan_map-Longest m (picked key p s))

  scan_maps_from :
      (ms : List (Map ℕ)) (s : Found V) → Longest title (entries ms) s (scan_maps true title ms s)
  unfolding scan_maps
  scan_maps_from [] s = Longest-none s
  scan_maps_from (m ∷ ms) s =
      let t = scan_map true title m s in
      Longest-append m (entries ms) s t (scan_maps true title ms t) (scan_map-Longest m s)
        (scan_maps_from ms t)

-- Under _longest_first matching_flag_on finds the longest title that begins the rest of the input,
-- of all titles of the matched commands and their owners, and finds none only if none but the
-- empty one begins it.
pub matching_flag_on-Longest :
    {V : Type 0} (long special : Bool) (li : Node → Map ℕ) (s : Parser V) (r : Found V)
    → matching_flag_on true long special li s ≡ done r
    → (ms : List (Map ℕ)) × (all_maps li s.nodes (reverse s.pc.matched_commands) ≡ done ms)
      × Longest (drop s.pc.pos s.pc.title) (entries ms) (nothing_found long special s.flags) r
unfolding matching_flag_on
matching_flag_on-Longest long special li s r e =
    let (ms, q, d) = bind-eq-done (all_maps li s.nodes (reverse s.pc.matched_commands)) _ r e in
    let start = nothing_found long special s.flags in
    let text = drop s.pc.pos s.pc.title in
    (
      ms,
      q,
      subst (Longest text (entries ms) start) (done_inj (scan_maps true text ms start) r d)
          (scan_maps_from text ms start),
    )

-- A match is not empty.
pub matched_pos :
    {V : Type 0} (long special : Bool) (li : Node → Map ℕ) (s : Parser V) (r : Found V) (p : ℕ)
    → matching_flag_on true long special li s ≡ done r
    → r.obj ≡ some p
    → 0 < r.matched_length
matched_pos long special li s r p e o =
    let (ms, q, l) = matching_flag_on-Longest long special li s r e in
    elim l.match [ inl (n, _, _) ↦ cc (n, o) | inr (_, _, _, _, _, d) ↦ omega (arith, d) ]
