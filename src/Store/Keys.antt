-- ===== src/Store/Keys.antt =====
-- Dotted keys: the parts of a key, and the address that they lead to.
use cmdr_cxx.Base.{
  ℕ, ◌+◌, ◌<◌, List, [], ◌∷◌, ◌++◌, none, some, Str, ◌≡◌, refl, sym, ap, ◌∙◌, arith, length, ◌==◌,
  if◌then◌else◌, Option-cases, Bool-cases, inl, inr, ==_iff,
}
use cmdr_cxx.Store.{cut_dot}

-- A part in front of the first part.
abbrev first_cons : ℕ → List Str → List Str
first_cons c [] = (c ∷ []) ∷ []
first_cons c (p ∷ ps) = (c ∷ p) ∷ ps

-- The texts between the dots of a key.
pub parts : Str → List Str
parts [] = [] ∷ []
parts (c ∷ s) = if c == b'.' then [] ∷ parts s else first_cons c (parts s)

-- The key of the parts.
abbrev rejoin : List Str → Str
rejoin [] = []
rejoin (p ∷ []) = p
rejoin (p ∷ q ∷ ps) = p ++ b'.' ∷ rejoin (q ∷ ps)

abbrev Filled : List Str → Type 0
Filled [] = ⊥
Filled (p ∷ ps) = Unit

first_cons-Filled : (c : ℕ) (ps : List Str) → Filled (first_cons c ps)
first_cons-Filled c [] = tt
first_cons-Filled c (p ∷ ps) = tt

parts-Filled : (s : Str) → Filled (parts s)
unfolding parts
parts-Filled [] = tt
parts-Filled (c ∷ s) = elim (Bool-cases (c == b'.')) [
  | inl e ↦ rw e tt
  | inr e ↦ rw e (first_cons-Filled c (parts s))
]

rejoin-dot : (ps : List Str) → Filled ps → rejoin ([] ∷ ps) ≡ b'.' ∷ rejoin ps
rejoin-dot [] f = absurd f
rejoin-dot (p ∷ ps) f = refl

rejoin-first_cons : (c : ℕ) (ps : List Str) → Filled ps → rejoin (first_cons c ps) ≡ c ∷ rejoin ps
rejoin-first_cons c [] f = absurd f
rejoin-first_cons c (p ∷ []) f = refl
rejoin-first_cons c (p ∷ q ∷ ps) f = refl

-- The parts tell the key.
pub rejoin-parts : (s : Str) → rejoin (parts s) ≡ s
unfolding parts
rejoin-parts [] = refl
rejoin-parts (c ∷ s) = elim (Bool-cases (c == b'.')) [
  | inl e ↦ rw e (
      rejoin-dot (parts s) (parts-Filled s)
      ∙ ap (λ t. b'.' ∷ t) (rejoin-parts s)
      ∙ ap (λ d. d ∷ s) (sym ((==_iff c b'.').0 e)))
  | inr e ↦ rw e (rejoin-first_cons c (parts s) (parts-Filled s) ∙ ap (λ t. c ∷ t) (rejoin-parts s))
]

-- What cut_dot answers, told by the parts.
pub parts-cut_none : (s : Str) → cut_dot s ≡ none → parts s ≡ s ∷ []
unfolding parts cut_dot
parts-cut_none [] h = refl
parts-cut_none (c ∷ s) h = elim (Bool-cases (c == b'.')) [
  | inl e ↦ ground (arith, e, h)
  | inr e ↦ elim (Option-cases (cut_dot s)) [
    | inl k ↦ rw e (ap (first_cons c) (parts-cut_none s k))
    | inr (r, k) ↦ ground (arith, e, h, k)
  ]
]

pub parts-cut_some :
    (s k r : Str) → cut_dot s ≡ some (k, r) → (parts s ≡ k ∷ parts r) × (length r < length s)
unfolding parts cut_dot
parts-cut_some [] k r h = cc
parts-cut_some (c ∷ s) k r h = elim (Bool-cases (c == b'.')) [
  | inl e ↦
      let q : (k ≡ []) × (r ≡ s) = ground (arith, e, h) in rw (e, q.0, q.1) (refl, omega arith)
  | inr e ↦ elim (Option-cases (cut_dot s)) [
    | inl n ↦ ground (arith, e, h, n)
    | inr ((i, t), n) ↦
        let q : (k ≡ c ∷ i) × (r ≡ t) = ground (arith, e, h, n) in
        let (a, l) = parts-cut_some s i t n in rw (e, q.0, q.1) (ap (first_cons c) a, omega arith)
  ]
]

-- The address behind the parts, the last part first.
abbrev pub onto : List Str → List Str → List Str
onto [] rest = rest
onto (p ∷ ps) rest = onto ps (p ∷ rest)

length-onto : (ps rest : List Str) → length (onto ps rest) ≡ length ps + length rest
length-onto [] rest = omega arith
length-onto (p ∷ ps) rest = omega (arith, length-onto ps (p ∷ rest))

onto_cancel :
    (ps qs r t : List Str) → length ps ≡ length qs → onto ps r ≡ onto qs t → (ps ≡ qs) × (r ≡ t)
onto_cancel [] [] r t l e = (refl, e)
onto_cancel [] (q ∷ qs) r t l e = absurd (omega (arith, l))
onto_cancel (p ∷ ps) [] r t l e = absurd (omega (arith, l))
onto_cancel (p ∷ ps) (q ∷ qs) r t l e =
    let (a, b) = onto_cancel ps qs (p ∷ r) (q ∷ t) (omega (arith, l)) e in
    let c : (p ≡ q) × (r ≡ t) = (cc b, cc b) in (cc (a, c.0), c.1)

-- Addresses from the same place tell the key.
pub onto-parts_injective :
    (s t : Str) (rest : List Str) → onto (parts s) rest ≡ onto (parts t) rest → s ≡ t
onto-parts_injective s t rest e =
    let l : length (parts s) ≡ length (parts t) =
      omega (arith, length-onto (parts s) rest, length-onto (parts t) rest, ap length e) in
    sym (rejoin-parts s)
    ∙ ap rejoin (onto_cancel (parts s) (parts t) rest rest l e).0
    ∙ rejoin-parts t
