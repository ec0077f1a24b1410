-- ===== src/SmallString/Sizes.antt =====
-- For which sizes the last char of the buffer keeps the number of the characters.
use cmdr_cxx.Base.{
  ℕ, ◌+◌, ◌-◌, ◌%◌, ◌^◌, ◌≤◌, ◌<◌, Bool, true, false, [], ◌∷◌, ◌++◌, Str, length, length-append,
  length-take, length-drop, length-replicate, replicate, get_elem?-set_self, set, take, drop, ltb,
  leb, leb→le, if◌then◌else◌, ◌≡◌, refl, ap, ◌∙◌, arith,
}
use cmdr_cxx.SmallString.{
  SmallString, char_at, capacity, minus_char, size, set_size, copied, assign_string, assign_small,
  empty_string, append,
}

-- The buffer has its length, and the string fits the signed chars.
abbrev pub IsFit : SmallString → Type 0
IsFit s = (length s.buffer ≡ s.size_) × (0 < s.size_) × (s.size_ ≤ 128)

minus_char-small : (n c : ℕ) → c < 128 → c ≤ n → n < 128 → minus_char n c ≡ n - c
unfolding minus_char
minus_char-small n c h k l = ground arith

minus_char-large : (n : ℕ) → 128 ≤ n → n < 256 → minus_char n n ≡ 256
unfolding minus_char
minus_char-large n h k = ground arith

char_at-set : (buf : Str) (i v : ℕ) → i < length buf → char_at (set buf i v) i ≡ v
char_at-set buf i v h = rw (get_elem?-set_self buf i v h, char_at) refl

stored_small : (c n : ℕ) → n ≤ c → c < 128 → (c + 2 ^ 64 - n) % 2 ^ 64 % 256 ≡ c - n
stored_small c n h k = omega arith

-- size() gives back what set_size() was given, as long as Size is at most 128.
pub size-set_size : (s : SmallString) (n : ℕ) → IsFit s → n ≤ capacity s → size (set_size n s) ≡ n
unfolding size set_size
size-set_size s n (l, p, h) k =
    let e =
      char_at-set s.buffer (capacity s) ((s.size_ - 1 + 2 ^ 64 - n) % 2 ^ 64 % 256)
        (omega (arith, l, p)) in
    let d = stored_small (capacity s) n k (omega (arith, p, h)) in
    let a : minus_char (capacity s) (capacity s - n) ≡ n =
      minus_char-small (capacity s) (capacity s - n) (omega (arith, h, p)) (omega arith)
        (omega (arith, h, p))
      ∙ omega (arith, k) in
    ap (minus_char (capacity s)) (e ∙ d) ∙ a

-- One more than the capacity wraps.
size-set_size_past : (s : SmallString) → IsFit s → size (set_size s.size_ s) ≡ s.size_
unfolding size set_size minus_char
size-set_size_past s (l, p, h) =
    let e =
      char_at-set s.buffer (capacity s) ((s.size_ - 1 + 2 ^ 64 - s.size_) % 2 ^ 64 % 256)
        (omega (arith, l, p)) in
    let d : (s.size_ - 1 + 2 ^ 64 - s.size_) % 2 ^ 64 % 256 ≡ 255 = omega (arith, p, h) in
    let a : minus_char (capacity s) 255 ≡ s.size_ = omega (arith, p, h) in
    ap (minus_char (capacity s)) (e ∙ d) ∙ a

pub copied-IsFit :
    (s : SmallString) (str : Str) (n : ℕ)
    → n ≤ length str
    → n ≤ s.size_
    → IsFit s
    → IsFit (copied str n s)
copied-IsFit s str n h k (l, p, m) = (
  length-append (take n str) (drop n s.buffer)
      ∙ omega (arith, length-take n str, length-drop n s.buffer, h, k, l),
  p,
  m,
)

pub fresh-IsFit :
    (size_ : ℕ)
    → 0 < size_
    → size_ ≤ 128
    → IsFit (record { size_ = size_; buffer = replicate size_ 0 })
fresh-IsFit size_ p h = (length-replicate size_ 0, p, h)

not_le : (a b : ℕ) → leb a b ≡ false → b < a
not_le a b h = ground arith

-- The size behind the two bounds that the code takes for the number of copied characters.
sized :
    (b : Bool) (s : SmallString) (str : Str) (m : ℕ)
    → IsFit s
    → (b ≡ true → s.size_ ≤ length str)
    → (b ≡ false → (m ≤ length str) × (m < s.size_))
    → size (set_size (if b then s.size_ else m) (copied str (if b then s.size_ else m) s))
      ≡ (if b then s.size_ else m)
sized true s str m f h k =
    size-set_size_past (copied str s.size_ s) (copied-IsFit s str s.size_ (h refl) (omega arith) f)
sized false s str m f h k =
    let (a, b) = k refl in
    size-set_size (copied str m s) m (copied-IsFit s str m a (omega (arith, b)) f)
      (omega (arith, b))

-- For a Size up to 128 a std::string that is not shorter than Size gives the small string the size
-- Size, one more than its capacity; a shorter one gives its own length.
pub size-assign_string :
    (s : SmallString) (str : Str)
    → IsFit s
    → size (assign_string str s) ≡ (if leb s.size_ (length str) then s.size_ else length str)
unfolding assign_string
size-assign_string s str f =
    let e = length-append str (0 ∷ []) in
    sized (leb s.size_ (length str)) s (str ++ 0 ∷ []) (length str) f
      (λ b. omega (arith, leb→le s.size_ (length str) b, e))
      (λ b. (omega (arith, e), not_le s.size_ (length str) b))

-- A small string takes the Size of a smaller one, or its own, for the size, whatever the other
-- holds.
pub size-assign_small :
    (s rhs : SmallString)
    → IsFit s
    → length rhs.buffer ≡ rhs.size_
    → size (assign_small rhs s) ≡ (if leb s.size_ rhs.size_ then s.size_ else rhs.size_)
unfolding assign_small
size-assign_small s rhs f l =
    sized (leb s.size_ rhs.size_) s rhs.buffer rhs.size_ f
      (λ b. omega (arith, leb→le s.size_ rhs.size_ b, l))
      (λ b. (omega (arith, l), not_le s.size_ rhs.size_ b))

size-empty_string : (size_ : ℕ) → 128 < size_ → size_ ≤ 256 → size (empty_string size_) ≡ 256
unfolding size set_size minus_char empty_string
size-empty_string size_ h k =
    let r : length (replicate {A = ℕ} size_ 0) ≡ size_ = length-replicate size_ 0 in
    let e =
      char_at-set (replicate size_ 0) (size_ - 1) ((size_ - 1 + 2 ^ 64 - 0) % 2 ^ 64 % 256)
        (omega (arith, r, h)) in
    let d : (size_ - 1 + 2 ^ 64 - 0) % 2 ^ 64 % 256 ≡ size_ - 1 = omega (arith, h, k) in
    ap (minus_char (size_ - 1)) (e ∙ d)
    ∙ minus_char-large (size_ - 1) (omega (arith, h)) (omega (arith, k))

if_false : {A : Type 0} (b : Bool) (x y : A) → b ≡ false → (if b then x else y) ≡ y
if_false true x y e = cc e
if_false false x y e = refl

not_ltb : (a b : ℕ) → b ≤ a → ltb a b ≡ false
not_ltb a b h = ground arith

-- With a Size above 128 and up to 256 the empty string has the size 256, and nothing can be
-- appended to it.
pub empty_string_broken :
    (size_ value : ℕ)
    → 128 < size_
    → size_ ≤ 256
    → (size (empty_string size_) ≡ 256) × (append value (empty_string size_) ≡ empty_string size_)
unfolding append empty_string set_size
empty_string_broken size_ value h k =
    let e = size-empty_string size_ h k in
    (
      e,
      if_false (ltb (size (empty_string size_)) (size_ - 1)) _ _
          (not_ltb (size (empty_string size_)) (size_ - 1) (omega (arith, e, k))),
    )
