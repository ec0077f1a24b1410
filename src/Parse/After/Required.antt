-- ===== src/Parse/After/Required.antt =====
-- check_required_flags comes to an end, and what its answer means.
use cmdr_cxx.Base.{
  ℕ, zero, suc, ◌<◌, ◌==◌, ==_iff, Bool, true, false, ◌&&◌, List, [], ◌∷◌, length, get_elem?,
  get_elem?-lt, Option, none, some, if◌then◌else◌, ◌≡◌, refl, sym, ap, ◌∙◌, subst, arith,
  Option-cases, Bool-cases, inl, inr, ◌⊎◌, Among,
}
use cmdr_cxx.Parse.{Flag, Node, Parser, Outcome, done, fault, ◌>>=◌, from_option}
use cmdr_cxx.Parse.Ends.{Ends, Ends-bind, Ends-done, Ends-fault, Ends-from_option, bind-eq-done}
use cmdr_cxx.Parse.Scan.Lineage.{OwnersPrecede}
use cmdr_cxx.Parse.After.{missed_in, or_owner, check_required_flags}

-- The command q is p, or an owner of p.
pub data Owns (nodes : List Node) : ℕ → ℕ → Type 0 where
  itself : {p : ℕ} → Owns nodes p p
  through_owner :
      {p q r : ℕ} {node : Node}
      → get_elem? nodes p ≡ some node
      → node.owner ≡ some q
      → Owns nodes q r
      → Owns nodes p r

-- A required flag that was not hit.
abbrev pub Misses : {V : Type 0} → Flag V → Type 0
Misses flag = (flag.required ≡ true) × (flag.hit.hit_count ≡ 0)

-- What the answer says: of which command the missed flag is, or that no flag is missed.
abbrev pub Answers : {V : Type 0} → Parser V → ℕ → Option ℕ → Type 0
Answers {V} s p none =
    (q : ℕ) (node : Node) (f : ℕ) (flag : Flag V)
    → Owns s.nodes p q
    → get_elem? s.nodes q ≡ some node
    → Among f node.all_args
    → get_elem? s.flags f ≡ some flag
    → ¬ Misses flag
Answers {V} s p (some f) =
    (q : ℕ) × (node : Node) × (flag : Flag V) × Owns s.nodes p q
    × (get_elem? s.nodes q ≡ some node)
    × Among f node.all_args
    × (get_elem? s.flags f ≡ some flag)
    × Misses flag

abbrev AnswersIn : {V : Type 0} → List (Flag V) → List ℕ → Option ℕ → Type 0
AnswersIn {V} flags ps none =
    (f : ℕ) (flag : Flag V) → Among f ps → get_elem? flags f ≡ some flag → ¬ Misses flag
AnswersIn {V} flags ps (some f) =
    (flag : Flag V) × Among f ps × (get_elem? flags f ≡ some flag) × Misses flag

done_inj : {A : Type 0} (a b : A) → done a ≡ done b → a ≡ b
done_inj a b e = cc e

some_inj : {A : Type 0} (a b : A) → some a ≡ some b → a ≡ b
some_inj a b e = cc e

from_option_done : {A : Type 0} (o : Option A) (a : A) → from_option o ≡ done a → o ≡ some a
from_option_done none a e = cc e
from_option_done (some b) a e = ap some (done_inj b a e)

if_either : {A : Type 0} (P : A → Type 0) (b : Bool) {x y : A} → P x → P y → P (if b then x else y)
if_either P true x y = x
if_either P false x y = y

Owns-owner_cases :
    (nodes : List Node) (p r : ℕ) (node : Node)
    → get_elem? nodes p ≡ some node
    → Owns nodes p r
    → (p ≡ r) ⊎ ((q : ℕ) × (node.owner ≡ some q) × Owns nodes q r)
Owns-owner_cases nodes p r node e itself = inl refl
Owns-owner_cases nodes p r node e (through_owner {q = q} {node = m} f d o) =
    inr (q, subst (λ x. x.owner ≡ some q) (some_inj m node (sym f ∙ e)) d, o)

module _ {V : Type 0} (flags : List (Flag V)) where
  Misses-tested : (flag : Flag V) → (flag.required && flag.hit.hit_count == 0) ≡ true → Misses flag
  Misses-tested flag e = elim (Bool-cases flag.required) [
    | inl r ↦ (
      r,
      (==_iff flag.hit.hit_count 0).0 (subst (λ b. (b && flag.hit.hit_count == 0) ≡ true) r e),
    )
    | inr r ↦ cc (subst (λ b. (b && flag.hit.hit_count == 0) ≡ true) r e)
  ]

  test-Misses : (flag : Flag V) → Misses flag → (flag.required && flag.hit.hit_count == 0) ≡ true
  test-Misses flag (r, h) = rw r ((==_iff flag.hit.hit_count 0).1 h)

  AnswersIn-cons :
      (p : ℕ) (ps : List ℕ) (flag : Flag V) (o : Option ℕ)
      → get_elem? flags p ≡ some flag
      → ¬ Misses flag
      → AnswersIn flags ps o
      → AnswersIn flags (p ∷ ps) o
  AnswersIn-cons p ps flag none e n h = λ f g m d. elim m [
    | inl i ↦
        subst (λ x. ¬ Misses x)
          (some_inj flag g (sym e ∙ subst (λ x. get_elem? flags x ≡ some g) i d)) n
    | inr i ↦ h f g i d
  ]
  AnswersIn-cons p ps flag (some f) e n (g, m, d, x) = (g, inr m, d, x)

  missed_in-AnswersIn :
      (ps : List ℕ) (o : Option ℕ) → missed_in flags ps ≡ done o → AnswersIn flags ps o
  unfolding missed_in
  missed_in-AnswersIn [] o e = subst (AnswersIn flags []) (done_inj none o e) (λ f g m. absurd m)
  missed_in-AnswersIn (p ∷ ps) o e =
      let (flag, f, g) = bind-eq-done (from_option (get_elem? flags p)) _ o e in
      let d = from_option_done (get_elem? flags p) flag f in
      elim (Bool-cases (flag.required && flag.hit.hit_count == 0)) [
        | inl b ↦
            let h : done (some p) ≡ done o =
              subst (λ x. (if x then done (some p) else missed_in flags ps) ≡ done o) b g in
            subst (AnswersIn flags (p ∷ ps)) (done_inj (some p) o h)
              (flag, inl refl, d, Misses-tested flag b)
        | inr b ↦
            AnswersIn-cons p ps flag o d (λ m. cc (b, test-Misses flag m))
              (missed_in-AnswersIn ps o
                (subst (λ x. (if x then done (some p) else missed_in flags ps) ≡ done o) b g))
      ]

  missed_in-Ends : (ps : List ℕ) → Ends (missed_in flags ps)
  unfolding missed_in
  missed_in-Ends [] = Ends-done _
  missed_in-Ends (p ∷ ps) =
      Ends-bind (from_option (get_elem? flags p)) _ (Ends-from_option _) (λ flag _.
        if_either Ends (flag.required && flag.hit.hit_count == 0) (Ends-done _) (missed_in-Ends ps))

module _ {V : Type 0} (s : Parser V) where
  check-none :
      (fuel p : ℕ) → get_elem? s.nodes p ≡ none → check_required_flags (suc fuel) s p ≡ fault
  unfolding check_required_flags
  check-none fuel p e = rw (e, check_required_flags) refl

  check-some :
      (fuel p : ℕ) (node : Node)
      → get_elem? s.nodes p ≡ some node
      → check_required_flags (suc fuel) s p ≡ (
          missed_in s.flags node.all_args >>= λ missed.
          or_owner (check_required_flags fuel s) missed node.owner)
  unfolding check_required_flags
  check-some fuel p node e = rw (e, check_required_flags) refl

  or_owner-Ends :
      (up : ℕ → Outcome (Option ℕ)) (missed owner : Option ℕ)
      → ((q : ℕ) → owner ≡ some q → Ends (up q))
      → Ends (or_owner up missed owner)
  or_owner-Ends up (some f) owner h = Ends-done _
  or_owner-Ends up none none h = Ends-done _
  or_owner-Ends up none (some q) h = h q refl

  check-Ends :
      OwnersPrecede s.nodes
      → (fuel p : ℕ) → (p < length s.nodes → p < fuel)
      → 0 < fuel
      → Ends (check_required_flags fuel s p)
  check-Ends w zero p l f = absurd (omega (arith, f))
  check-Ends w (suc fuel) p l f = elim (Option-cases (get_elem? s.nodes p)) [
    | inl e ↦ rw (check-none fuel p e) (Ends-fault _)
    | inr (node, e) ↦
        let c = l (get_elem?-lt s.nodes p node e) in
        rw (check-some fuel p node e) (
          Ends-bind (missed_in s.flags node.all_args) _ (missed_in-Ends s.flags node.all_args)
            (λ missed _. or_owner-Ends (check_required_flags fuel s) missed node.owner (λ q o.
              check-Ends w fuel q (λ _. omega (arith, w p node q e o, c))
                (omega (arith, w p node q e o, c)))))
  ]

  own :
      (p q : ℕ) (node m : Node) (f : ℕ) (flag : Flag V)
      → get_elem? s.nodes p ≡ some node
      → AnswersIn s.flags node.all_args none
      → p ≡ q
      → get_elem? s.nodes q ≡ some m
      → Among f m.all_args
      → get_elem? s.flags f ≡ some flag
      → ¬ Misses flag
  own p q node m f flag e a i g =
      let d : node ≡ m =
        some_inj node m (sym e ∙ subst (λ x. get_elem? s.nodes x ≡ some m) (sym i) g) in
      λ k. a f flag (subst (λ x. Among f x.all_args) (sym d) k)

  -- The flags of the command itself and those of the owners together.
  or_owner-Answers :
      (up : ℕ → Outcome (Option ℕ)) (p : ℕ) (node : Node) (missed owner : Option ℕ) (o : Option ℕ)
      → get_elem? s.nodes p ≡ some node
      → node.owner ≡ owner
      → ((q : ℕ) → up q ≡ done o → Answers s q o)
      → AnswersIn s.flags node.all_args missed
      → or_owner up missed owner ≡ done o
      → Answers s p o
  or_owner-Answers up p node (some f) owner o e d h (flag, m, g, x) r =
      subst (Answers s p) (done_inj (some f) o r) (p, node, flag, itself, e, m, g, x)
  or_owner-Answers up p node none none o e d h a r =
      subst (Answers s p) (done_inj none o r) (λ q m f flag w g.
        elim (Owns-owner_cases s.nodes p q node e w) [
          | inl i ↦ own p q node m f flag e a i g
          | inr (t, c, _) ↦ cc (c, d)
        ])
  or_owner-Answers up p node none (some t) none e d h a r = λ q m f flag w g.
      elim (Owns-owner_cases s.nodes p q node e w) [
        | inl i ↦ own p q node m f flag e a i g
        | inr (u, c, v) ↦
            h t r q m f flag (subst (λ x. Owns s.nodes x q) (some_inj u t (sym c ∙ d)) v) g
      ]
  or_owner-Answers up p node none (some q) (some f) e d h a r =
      let (t, m, flag, v, x, y, z, u) = h q r in (t, m, flag, through_owner e d v, x, y, z, u)

  check-Answers :
      (fuel p : ℕ) (o : Option ℕ) → check_required_flags fuel s p ≡ done o → Answers s p o
  unfolding check_required_flags
  check-Answers zero p o r = cc r
  check-Answers (suc fuel) p o r = elim (Option-cases (get_elem? s.nodes p)) [
    | inl e ↦ cc (check-none fuel p e, r)
    | inr (node, e) ↦
        let (missed, f, g) =
          bind-eq-done (missed_in s.flags node.all_args) _ o (sym (check-some fuel p node e) ∙ r) in
        or_owner-Answers (check_required_flags fuel s) p node missed node.owner o e refl
          (λ q. check-Answers fuel q o) (missed_in-AnswersIn s.flags node.all_args missed f) g
  ]

-- The search for a missed flag ends where every command was made behind its owner. Where it gives a
-- flag, that is a required flag of the command or of an owner, which was not hit; and where it
-- gives none, every required flag of the command and its owners was hit.
pub check_required_flags-Answers :
    {V : Type 0} (s : Parser V) (p : ℕ)
    → OwnersPrecede s.nodes
    → Ends (check_required_flags (suc (length s.nodes)) s p)
      × ((o : Option ℕ) → check_required_flags (suc (length s.nodes)) s p ≡ done o → Answers s p o)
check_required_flags-Answers s p w = (
  check-Ends s w (suc (length s.nodes)) p (λ l. omega (arith, l)) (omega arith),
  check-Answers s (suc (length s.nodes)) p,
)
