-- ===== src/SmallString/Tests.antt =====
-- Witnesses on strings with a buffer of 8 and of 200 chars.
use cmdr_cxx.Base.{false, ◌++◌, take, codes, ◌≡◌, refl, arith}
use cmdr_cxx.SmallString.{
  SmallString, size, append, append_all, assign_literal, from_literal, assign_string, assign_small,
  empty_string, chars, same_string,
}
use cmdr_cxx.SmallString.Sizes.{IsFit, size-assign_string, size-assign_small, empty_string_broken}
use cmdr_cxx.SmallString.Contents.{IsSmall, append_all-chars, assign_literal-chars}
use cmdr_cxx.SmallString.Stale.{assign_literal_stale}

abbrev hello : SmallString
hello = from_literal 8 (codes "hello")

hello-IsFit : IsFit hello
unfolding from_literal
hello-IsFit = (refl, omega arith, omega arith)

hello-IsSmall : IsSmall hello
unfolding from_literal size
hello-IsSmall = ((refl, omega arith, omega arith), omega arith)

append_all-chars_example :
    IsSmall (append_all (codes " you") hello)
    × (chars (append_all (codes " you") hello) ≡ take 7 (chars hello ++ codes " you"))
unfolding from_literal
append_all-chars_example = append_all-chars (codes " you") hello hello-IsSmall

assign_literal-chars_example :
    IsSmall (assign_literal (codes "farewell") hello)
    × (chars (assign_literal (codes "farewell") hello) ≡ codes "farewel")
unfolding from_literal
assign_literal-chars_example = assign_literal-chars (codes "farewell") hello hello-IsFit

size-assign_string_example : size (assign_string (codes "farewell") hello) ≡ 8
unfolding from_literal
size-assign_string_example = size-assign_string hello (codes "farewell") hello-IsFit

size-assign_small_example : size (assign_small (from_literal 4 (codes "ab")) hello) ≡ 4
unfolding from_literal
size-assign_small_example = size-assign_small hello (from_literal 4 (codes "ab")) hello-IsFit refl

empty_string_broken_example :
    (size (empty_string 200) ≡ 256) × (append 65 (empty_string 200) ≡ empty_string 200)
empty_string_broken_example = empty_string_broken 200 65 (omega arith) (omega arith)

assign_literal_stale_example :
    (chars (assign_literal (codes "ab") hello) ≡ codes "ab")
    × (same_string (assign_literal (codes "ab") hello) (from_literal 8 (codes "ab")) ≡ false)
unfolding from_literal
assign_literal_stale_example =
    assign_literal_stale (codes "ab") hello hello-IsFit ((λ e. cc e), ((λ e. cc e), tt))
      (omega arith) (λ e. cc e)
