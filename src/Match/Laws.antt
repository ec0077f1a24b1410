-- ===== src/Match/Laws.antt =====
-- What matching_command finds, and what it does to the maps.
use cmdr_cxx.Base.{
  ℕ, ◌+◌, Bool, true, false, List, Option, none, some, Str, get_elem?, set, get_elem?-set_self,
  get_elem?-set_ne, get_elem?-lt, ◌≡◌, ◌≢◌, refl, sym, subst, ap, ◌∙◌, Option-cases, inl, inr,
}
use cmdr_cxx.Base.Maps.{find}
use cmdr_cxx.Match.{Hit, Level, update_hit_count, matching_command}

matching-long :
    (l : Level) (t : Str) (p : ℕ)
    → find t l.long_commands ≡ some p
    → matching_command l t ≡ (some p, record l { commands = update_hit_count t true p l.commands })
unfolding matching_command
matching-long l t p e = rw (e, matching_command) refl

matching-short :
    (l : Level) (t : Str) (p : ℕ)
    → find t l.long_commands ≡ none
    → find t l.short_commands ≡ some p
    → matching_command l t ≡ (
      some p,
      record l {
        commands = update_hit_count t false p l.commands;
        long_commands = l.short_commands;
      },
    )
unfolding matching_command
matching-short l t p e k = rw (e, k, matching_command) refl

matching-none :
    (l : Level) (t : Str)
    → find t l.long_commands ≡ none
    → find t l.short_commands ≡ none
    → matching_command l t ≡ (none, record l { long_commands = l.short_commands })
unfolding matching_command
matching-none l t e k = rw (e, k, matching_command) refl

-- The first of two answers.
abbrev pub first_of : Option ℕ → Option ℕ → Option ℕ
first_of (some p) o = some p
first_of none o = o

counted :
    (hits : List Hit) (t : Str) (b : Bool) (p : ℕ) (hit : Hit)
    → get_elem? hits p ≡ some hit
    → update_hit_count t b p hits
      ≡ set hits p (record {
        hit_title = t;
        hit_count = hit.hit_count + 1;
        hit_long = b;
        hit_special = false;
      })
unfolding update_hit_count
counted hits t b p hit e = rw (e, update_hit_count) refl

-- What a match of `t` at the place p leaves of the hits.
pub record IsHit (t : Str) (p : ℕ) (hit : Hit) (before after : List Hit) : Type 0 where
  pub is_long : Bool
  pub counts :
      get_elem? after p
      ≡ some (record {
        hit_title = t;
        hit_count = hit.hit_count + 1;
        hit_long = is_long;
        hit_special = false;
      })
  pub others : (q : ℕ) → p ≢ q → get_elem? after q ≡ get_elem? before q

update-IsHit :
    (hits : List Hit) (t : Str) (b : Bool) (p : ℕ) (hit : Hit)
    → get_elem? hits p ≡ some hit
    → IsHit t p hit hits (update_hit_count t b p hits)
update-IsHit hits t b p hit e =
    subst (IsHit t p hit hits) (sym (counted hits t b p hit e)) (record {
      is_long = b;
      counts = get_elem?-set_self hits p _ (get_elem?-lt hits p hit e);
      others = λ q ne. get_elem?-set_ne hits p q _ ne;
    })

-- A title matches the command that has it as a long title or an alias, or else the one that has it
-- as its short title, or else none.
pub matching_command-first_of :
    (l : Level) (t : Str)
    → (matching_command l t).0 ≡ first_of (find t l.long_commands) (find t l.short_commands)
matching_command-first_of l t = elim (Option-cases (find t l.long_commands)) [
  | inr (p, e) ↦
      ap (λ r. r.0) (matching-long l t p e) ∙ sym (ap (λ o. first_of o (find t l.short_commands)) e)
  | inl e ↦
      let s = ap (λ o. first_of o (find t l.short_commands)) e in
      elim (Option-cases (find t l.short_commands)) [
        | inr (p, k) ↦ ap (λ r. r.0) (matching-short l t p e k) ∙ sym (s ∙ k)
        | inl k ↦ ap (λ r. r.0) (matching-none l t e k) ∙ sym (s ∙ k)
      ]
]

-- A match of a command that is there counts one hit of it, under the title that was given, and
-- leaves the hits of the others.
pub matching_command-IsHit :
    (l : Level) (t : Str) (p : ℕ) (hit : Hit)
    → (matching_command l t).0 ≡ some p
    → get_elem? l.commands p ≡ some hit
    → IsHit t p hit l.commands (matching_command l t).1.commands
matching_command-IsHit l t p hit m e = elim (Option-cases (find t l.long_commands)) [
  | inr (q, k) ↦
      let s : p ≡ q = cc (m, ap (λ r. r.0) (matching-long l t q k)) in
      subst (λ r. IsHit t p hit l.commands r.1.commands) (sym (matching-long l t q k))
        (subst (λ i. IsHit t p hit l.commands (update_hit_count t true i l.commands)) s
          (update-IsHit l.commands t true p hit e))
  | inl n ↦ elim (Option-cases (find t l.short_commands)) [
    | inl k ↦ absurd (cc (m, ap (λ r. r.0) (matching-none l t n k)))
    | inr (q, k) ↦
        let s : p ≡ q = cc (m, ap (λ r. r.0) (matching-short l t q n k)) in
        subst (λ r. IsHit t p hit l.commands r.1.commands) (sym (matching-short l t q n k))
          (subst (λ i. IsHit t p hit l.commands (update_hit_count t false i l.commands)) s
            (update-IsHit l.commands t false p hit e))
  ]
]

-- A title that is not a long one costs the level its long titles.
missed :
    (l : Level) (t : Str)
    → find t l.long_commands ≡ none
    → ((matching_command l t).1.long_commands ≡ l.short_commands)
      × ((matching_command l t).1.short_commands ≡ l.short_commands)
missed l t n = elim (Option-cases (find t l.short_commands)) [
  | inl k ↦ (
    ap (λ r. r.1.long_commands) (matching-none l t n k),
    ap (λ r. r.1.short_commands) (matching-none l t n k),
  )
  | inr (q, k) ↦ (
    ap (λ r. r.1.long_commands) (matching-short l t q n k),
    ap (λ r. r.1.short_commands) (matching-short l t q n k),
  )
]

-- A command with a long title u that is no short title is matched, but not any more behind a
-- title t that is not a long one.
pub matching_command_forgets :
    (l : Level) (t u : Str) (p : ℕ)
    → find t l.long_commands ≡ none
    → find u l.long_commands ≡ some p
    → find u l.short_commands ≡ none
    → ((matching_command l u).0 ≡ some p) × ((matching_command (matching_command l t).1 u).0 ≡ none)
matching_command_forgets l t u p n e k =
    let (a, b) = missed l t n in
    (
      ap (λ r. r.0) (matching-long l u p e),
      ap (λ r. r.0)
          (matching-none (matching_command l t).1 u (ap (find u) a ∙ k) (ap (find u) b ∙ k)),
    )
