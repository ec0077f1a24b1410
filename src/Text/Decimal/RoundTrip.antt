-- ===== src/Text/Decimal/RoundTrip.antt =====
-- `itoa` prints the number, whatever the text held before.
use native.Mathlib.Nat.{pow-suc}
use cmdr_cxx.Base.{
  ℕ, zero, suc, ◌+◌, ◌-◌, ◌*◌, ◌%◌, ◌^◌, ◌<◌, ◌≤◌, [], ◌∷◌, ◌++◌, some, Str, ◌≡◌, ◌≢◌, refl, sym,
  ap, ◌∙◌, arith, length, take, drop, set, length-append, length-take, length-replicate,
  length-drop, All, false, ◌==◌, take-append-drop, replicate, length-set, ℤ, pos, negsuc,
}
use cmdr_cxx.Text.Decimal.{size_of, resize, uint_mod, write_digits, itoa_unsigned, itoa, magnitude}
use cmdr_cxx.Text.Decimal.Loops.{Fits, Inv, value, IsDigit, write_digits-Inv}

pub size_of-Fits : (val : ℕ) → 0 < val → val < uint_mod → Fits (size_of val) val
size_of-Fits val h k = ground arith

length-resize : (s : Str) (n : ℕ) → length (resize s n) ≡ n
length-resize s n = omega (
  arith,
  length-append (take n s) (replicate (n - length s) 0),
  length-take n s,
  length-replicate {A = ℕ} (n - length s) 0,
)

length-drop_nil : (s : Str) (n : ℕ) → length s ≤ n → drop n s ≡ []
length-drop_nil [] zero h = refl
length-drop_nil [] (suc n) h = refl
length-drop_nil (c ∷ s) zero h = absurd (omega arith)
length-drop_nil (c ∷ s) (suc n) h = length-drop_nil s n (omega arith)

-- A number below 10 ^ j has at most j digits: more of them would start with a zero.
regroup : (n p : ℕ) → (n * 10 + 10) * p ≡ (n + 1) * (p * 10)
regroup n p = omega arith

value-lt : (s : Str) (n : ℕ) → All IsDigit s → value n s < (n + 1) * 10 ^ length s
value-lt [] n h = omega arith
value-lt (c ∷ s) n (h, hs) =
    let m = n * 10 + (c - b'0') in
    let p = 10 ^ length s in
    let ih = value-lt s m hs in
    let le : (m + 1) * p ≤ (n * 10 + 10) * p = grind arith in
    let q : (n * 10 + 10) * p ≡ (n + 1) * (p * 10) = regroup n p in
    rw pow-suc (omega (arith, ih, le, q))

-- No digit in front is a zero.
abbrev pub NoLeadingZero : Str → Type 0
NoLeadingZero [] = ⊥
NoLeadingZero (c ∷ s) = c ≢ b'0'

leads :
    (s : Str) (j val : ℕ)
    → 0 < val
    → Fits j val
    → length s ≡ j
    → All IsDigit s
    → value 0 s ≡ val
    → NoLeadingZero s
leads [] j val h f e d v = absurd (omega arith)
leads (c ∷ s) j val h f e (hc, d) v = λ zero_first.
    let small = value-lt s 0 d in
    let drops : 0 * 10 + (c - b'0') ≡ 0 = omega arith in
    let same : value 0 s ≡ val = rw drops at v in
    let width : 10 ^ j ≡ 10 ^ length s * 10 = rw (← e) (pow-suc 10 (length s)) in
    omega (arith, small, same, width, f.1)

-- The buffer that the loops are given.
start :
    (val : ℕ) (s : Str) (sign : ℕ) (pre : Str) (buf : Str)
    → Fits (size_of val) val
    → length buf ≡ sign + size_of val
    → take sign buf ≡ pre
    → Inv pre val (sign + size_of val) sign (size_of val) val buf
start val s sign pre buf f e k =
    let gone : drop (sign + size_of val) buf ≡ [] =
      length-drop_nil buf (sign + size_of val) (omega (arith, e)) in
    record {
      fits = f;
      room = omega arith;
      size = e;
      kept = k;
      digits = rw gone tt;
      spells = ap (value val) gone;
    }

-- What a decimal print of a positive number is.
abbrev pub Prints : Str → ℕ → Type 0
Prints out val = All IsDigit out × NoLeadingZero out × (value 0 out ≡ val)

written :
    (val sign : ℕ) (pre buf : Str)
    → 0 < val
    → val < uint_mod
    → length buf ≡ sign + size_of val
    → take sign buf ≡ pre
    → (out : Str) × (write_digits (sign + size_of val) val buf ≡ some (pre ++ out)) × Prints out val
written val sign pre buf h k e t =
    let f = size_of-Fits val h k in
    let (buf', run, v) =
      write_digits-Inv pre val (sign + size_of val) sign (size_of val) val buf
        (start val buf sign pre buf f e t) in
    let at : sign + 0 ≡ sign = omega arith in
    let digits : All IsDigit (drop sign buf') = rw at at v.digits in
    let spells : value 0 (drop sign buf') ≡ val = rw at at v.spells in
    let whole : pre ++ drop sign buf' ≡ buf' = rw (← v.kept) (take-append-drop sign buf') in
    (
      drop sign buf',
      run ∙ ap some (sym whole),
      (
        digits,
        leads (drop sign buf') (size_of val) val h f (omega (arith, length-drop sign buf', v.size))
            digits spells,
        spells,
      ),
    )

-- Every unsigned is printed in decimal with no needless zero, whatever the text held before.
pub itoa_unsigned-Prints :
    (val : ℕ) (s : Str)
    → 0 < val
    → val < uint_mod
    → (out : Str) × (itoa_unsigned val s ≡ some out) × Prints out val
unfolding itoa_unsigned
itoa_unsigned-Prints val s h k =
    let buf = resize s (size_of val) in
    let none_left : 0 + size_of val ≡ size_of val = omega arith in
    let (out, run, p) =
      written val 0 [] buf h k (omega (arith, length-resize s (size_of val))) refl in
    let run' : write_digits (size_of val) val buf ≡ some out = rw none_left at run in
    let test : (val == 0) ≡ false = ground arith in (out, rw (test, run'), p)

-- What itoa is to print for an `int`.
abbrev pub Printed : ℤ → Str → Type 0
Printed (pos zero) out = out ≡ b'0' ∷ []
Printed (pos (suc n)) out = Prints out (suc n)
Printed (negsuc m) out = (t : Str) × (out ≡ b'-' ∷ t) × Prints t (m + 1)

-- The values of an `int`, but the least, whose magnitude overflows.
abbrev pub InRange : ℤ → Type 0
InRange (pos n) = n < 2 ^ 31
InRange (negsuc m) = m + 1 < 2 ^ 31

take_one : (s : Str) (c : ℕ) → 0 < length s → take 1 (set s 0 c) ≡ c ∷ []
take_one [] c h = absurd (omega arith)
take_one (d ∷ s) c h = refl

negative :
    (m : ℕ) (s out : Str)
    → m + 1 < 2 ^ 31
    → write_digits (1 + size_of (m + 1)) (m + 1) (set (resize s (1 + size_of (m + 1))) 0 b'-')
      ≡ some out
    → itoa (negsuc m) s ≡ some out
unfolding itoa magnitude
negative m s out h run =
    let fits : (m + 1) % uint_mod ≡ m + 1 = omega arith in
    let e : size_of (m + 1) + 1 ≡ 1 + size_of (m + 1) = omega arith in
    let test : (m + 1 == 0) ≡ false = ground arith in rw (fits, test, e) run

-- Every int but the least is printed in decimal, with a minus sign in front if it is negative.
pub itoa-Printed :
    (n : ℤ) (s : Str) → InRange n → (out : Str) × (itoa n s ≡ some out) × Printed n out
unfolding itoa magnitude
itoa-Printed (pos zero) s h = (b'0' ∷ [], refl, refl)
itoa-Printed (pos (suc n)) s h =
    let val = suc n in
    let e : size_of val + 0 ≡ size_of val = omega arith in
    let none_left : 0 + size_of val ≡ size_of val = omega arith in
    let (out, run, p) =
      written val 0 [] (resize s (size_of val)) (omega arith) (omega arith)
        (omega (arith, length-resize s (size_of val))) refl in
    let run' : write_digits (size_of val) val (resize s (size_of val)) ≡ some out =
      rw none_left at run in
    let test : (val == 0) ≡ false = ground arith in (out, rw (test, e) run', p)
itoa-Printed (negsuc m) s h =
    let val = m + 1 in
    let buf = resize s (1 + size_of val) in
    let len = length-resize s (1 + size_of val) in
    let (out, run, p) =
      written val 1 (b'-' ∷ []) (set buf 0 b'-') (omega arith) (omega arith)
        (length-set buf 0 b'-' ∙ len) (take_one buf b'-' (omega (arith, len))) in
    (b'-' ∷ out, negative m s (b'-' ∷ out) h run, (out, refl, p))
