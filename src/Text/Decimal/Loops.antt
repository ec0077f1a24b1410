-- ===== src/Text/Decimal/Loops.antt =====
-- The loops of `itoa` write the digits of the number behind the part of the buffer that they leave.
use native.Mathlib.Nat.{pow-suc}
use cmdr_cxx.Base.{
  ℕ, zero, suc, ◌+◌, ◌-◌, ◌*◌, ◌/◌, ◌%◌, ◌^◌, ◌<◌, ◌≤◌, [], ◌∷◌, some, Str, ◌≡◌, refl, ap, ◌∙◌,
  arith, length, take, drop, set, drop-set_self, take-set_le, length-set, All, Bool, true, false,
  leb, ltb, ◌==◌, Bool-cases, if◌then◌else◌, inl, inr, subst,
}
use cmdr_cxx.Text.Decimal.{pair_char, pairs_loop, singles_loop, write_digits}

abbrev pub IsDigit : ℕ → Type 0
IsDigit c = (b'0' ≤ c) × (c ≤ b'9')

-- The number that the digits spell behind `n`.
abbrev pub value : ℕ → Str → ℕ
value n [] = n
value n (c ∷ s) = value (n * 10 + (c - b'0')) s

-- `val` has exactly j digits, where 0 has none.
abbrev pub Fits : ℕ → ℕ → Type 0
Fits j val = (val < 10 ^ j) × (10 ^ j ≤ 10 * val + 1)

-- Two functions agree on the numbers below the bound.
agree : (f g : ℕ → ℕ) → ℕ → Bool
agree f g zero = true
agree f g (suc n) = if f n == g n then agree f g n else false

agree_at : (f g : ℕ → ℕ) (bound at : ℕ) → at < bound → agree f g bound ≡ true → f at ≡ g at
unfolding agree
agree_at f g zero at lt e = absurd (omega arith)
agree_at f g (suc bound) at lt e = ground (arith, agree_at f g bound at)

pair_first : (p : ℕ) → p < 100 → pair_char (2 * p) ≡ b'0' + p / 10
unfolding agree
pair_first p h = agree_at (λ p. pair_char (2 * p)) (λ p. b'0' + p / 10) 100 p h refl

pair_second : (p : ℕ) → p < 100 → pair_char (2 * p + 1) ≡ b'0' + p % 10
unfolding agree
pair_second p h = agree_at (λ p. pair_char (2 * p + 1)) (λ p. b'0' + p % 10) 100 p h refl

Fits-tenth : (j val : ℕ) → Fits (suc j) val → Fits j (val / 10)
Fits-tenth zero val (h, k) = omega arith
Fits-tenth (suc j) val (h, k) = omega (arith, pow-suc 10 (suc j), pow-suc 10 j)

ten-pow_pos : (j : ℕ) → 0 < 10 ^ j
ten-pow_pos zero = omega arith
ten-pow_pos (suc j) = omega (arith, pow-suc 10 j, ten-pow_pos j)

drop_two :
    (xs : Str) (k a b : ℕ)
    → suc k < length xs
    → drop k (set (set xs k a) (suc k) b) ≡ a ∷ b ∷ drop (suc (suc k)) xs
drop_two [] k a b h = absurd (omega arith)
drop_two (x ∷ []) k a b h = absurd (omega arith)
drop_two (x ∷ y ∷ xs) zero a b h = refl
drop_two (x ∷ y ∷ xs) (suc k) a b h = drop_two (y ∷ xs) k a b (omega arith)

-- Of the buffer, `pre` stands untouched in front; behind the j places still free stand the digits
-- that together with `val` spell `n`.
pub record Inv (pre : Str) (n len kb j val : ℕ) (buf : Str) : Type 0 where
  pub fits : Fits j val
  pub room : kb + j ≤ len
  pub size : length buf ≡ len
  pub kept : take kb buf ≡ pre
  pub digits : All IsDigit (drop (kb + j) buf)
  pub spells : value val (drop (kb + j) buf) ≡ n

pairs_done :
    (k val : ℕ) (buf : Str) → leb 100 val ≡ false → pairs_loop k val buf ≡ some (val, k, buf)
unfolding pairs_loop
pairs_done zero val buf h = rw h
pairs_done (suc zero) val buf h = rw h
pairs_done (suc (suc k)) val buf h = rw (h, pairs_loop)

singles_done : (k : ℕ) (buf : Str) → singles_loop k 0 buf ≡ some buf
unfolding singles_loop
singles_done zero buf = refl
singles_done (suc k) buf = refl

module _ (pre : Str) (n len kb : ℕ) where
  Inv_pair :
      (j val : ℕ) (buf : Str)
      → Inv pre n len kb (suc (suc j)) val buf
      → Inv pre n len kb j (val / 100) (
          set
            (set buf (kb + j) (pair_char (2 * (val % 100))))
            (suc (kb + j))
            (pair_char (2 * (val % 100) + 1)))
  Inv_pair j val buf v =
      let e : kb + suc (suc j) ≡ suc (suc (kb + j)) = omega arith in
      let p = val % 100 in
      let small : p < 100 = omega arith in
      let a = pair_first p small in
      let b = pair_second p small in
      let cut =
        drop_two buf (kb + j) (b'0' + p / 10) (b'0' + p % 10) (omega (arith, v.room, v.size, e)) in
      let rest = drop (suc (suc (kb + j))) buf in
      let spelled : value val rest ≡ n = rw e at v.spells in
      let same : (val / 100 * 10 + (b'0' + p / 10 - b'0')) * 10 + (b'0' + p % 10 - b'0') ≡ val =
        omega arith in
      let fits : Fits j (val / 100) =
        let q : val / 10 / 10 ≡ val / 100 = omega arith in
        rw (← q) (Fits-tenth j (val / 10) (Fits-tenth (suc j) val v.fits)) in
      rw (a, b)
        (record {
          fits = fits;
          room = omega (arith, v.room);
          size =
              length-set (set buf (kb + j) (b'0' + p / 10)) (suc (kb + j)) (b'0' + p % 10)
              ∙ length-set buf (kb + j) (b'0' + p / 10)
              ∙ v.size;
          kept =
              take-set_le (set buf (kb + j) (b'0' + p / 10)) (suc (kb + j)) kb (b'0' + p % 10)
                (omega arith)
              ∙ take-set_le buf (kb + j) kb (b'0' + p / 10) (omega arith)
              ∙ v.kept;
          digits = rw cut (omega arith, (omega arith, rw e at v.digits));
          spells = ap (value (val / 100)) cut ∙ ap (λ m. value m rest) same ∙ spelled;
        })

  Inv_single :
      (j val : ℕ) (buf : Str)
      → Inv pre n len kb (suc j) val buf
      → Inv pre n len kb j (val / 10) (set buf (kb + j) (b'0' + val % 10))
  Inv_single j val buf v =
      let e : kb + suc j ≡ suc (kb + j) = omega arith in
      let cut = drop-set_self buf (kb + j) (b'0' + val % 10) (omega (arith, v.room, v.size)) in
      let same : val / 10 * 10 + (b'0' + val % 10 - b'0') ≡ val = omega arith in
      let spelled : value val (drop (suc (kb + j)) buf) ≡ n = rw e at v.spells in
      record {
        fits = Fits-tenth j val v.fits;
        room = omega (arith, v.room);
        size = length-set buf (kb + j) (b'0' + val % 10) ∙ v.size;
        kept = take-set_le buf (kb + j) kb (b'0' + val % 10) (omega arith) ∙ v.kept;
        digits = rw cut (omega arith, rw e at v.digits);
        spells =
            ap (value (val / 10)) cut ∙ ap (λ m. value m (drop (suc (kb + j)) buf)) same ∙ spelled;
      }

  abbrev PairsTo : ℕ → ℕ → Str → Type 0
  PairsTo j val buf =
      (j' val' : ℕ) × (buf' : Str) × (pairs_loop (kb + j) val buf ≡ some (val', kb + j', buf'))
      × Inv pre n len kb j' val' buf'

  pairs-Inv : (j val : ℕ) (buf : Str) → Inv pre n len kb j val buf → PairsTo j val buf
  unfolding pairs_loop
  pairs-Inv zero val buf v =
      (zero, val, buf, pairs_done (kb + zero) val buf (ground (arith, v.fits.0)), v)
  pairs-Inv (suc zero) val buf v =
      (suc zero, val, buf, pairs_done (kb + suc zero) val buf (ground (arith, v.fits.0)), v)
  pairs-Inv (suc (suc j)) val buf v = elim (Bool-cases (leb 100 val)) [
    | inr e ↦ (suc (suc j), val, buf, pairs_done (kb + suc (suc j)) val buf e, v)
    | inl e ↦
        let at : kb + suc (suc j) ≡ suc (suc (kb + j)) = omega arith in
        let (j', val', buf', run, inv) = pairs-Inv j (val / 100) _ (Inv_pair j val buf v) in
        (j', val', buf', rw (at, pairs_loop, e) run, inv)
  ]

  singles-Inv :
      (j val : ℕ) (buf : Str)
      → Inv pre n len kb j val buf
      → (buf' : Str) × (singles_loop (kb + j) val buf ≡ some buf') × Inv pre n len kb 0 0 buf'
  unfolding singles_loop
  singles-Inv zero val buf v =
      let none_left : val ≡ 0 = omega (arith, v.fits.0) in
      let v' : Inv pre n len kb 0 0 buf = subst (λ k. Inv pre n len kb 0 k buf) none_left v in
      (buf, rw none_left (singles_done (kb + zero) buf), v')
  singles-Inv (suc j) val buf v =
      let at : kb + suc j ≡ suc (kb + j) = omega arith in
      let more : ltb 0 val ≡ true = ground (arith, v.fits.1, pow-suc 10 j, ten-pow_pos j) in
      let (buf', run, inv) = singles-Inv j (val / 10) _ (Inv_single j val buf v) in
      (buf', rw (at, singles_loop, more) run, inv)

  -- Both loops end inside the buffer, with all the digits written.
  pub write_digits-Inv :
      (j val : ℕ) (buf : Str)
      → Inv pre n len kb j val buf
      → (buf' : Str) × (write_digits (kb + j) val buf ≡ some buf') × Inv pre n len kb 0 0 buf'
  unfolding write_digits
  write_digits-Inv j val buf v =
      let (j', val', mid, run, inv) = pairs-Inv j val buf v in
      let (buf', run', inv') = singles-Inv j' val' mid inv in (buf', rw (run) run', inv')
