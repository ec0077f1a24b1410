-- ===== src/Text/Tests.antt =====
-- The theorems on text at concrete inputs.
use cmdr_cxx.Base.{
  ℕ, Bool, str_eq, List, [], ◌∷◌, ◌++◌, none, some, Str, codes, ◌==◌, ◌≡◌, arith, find_str,
  is_prefix, refl, length, take, negsuc,
}
use cmdr_cxx.Text.Split.{split, join_str}
use cmdr_cxx.Text.Split.Pieces.{join-split, replace_all-split}
use cmdr_cxx.Text.Replace.{replace_all}
use cmdr_cxx.Text.Affix.{has_prefix, has_suffix, strip, strip_quotes}
use cmdr_cxx.Text.Affix.Quotes.{strip_quotes-append}
use cmdr_cxx.Text.Decimal.{itoa, itoa_unsigned}
use cmdr_cxx.Text.Decimal.RoundTrip.{Printed, itoa-Printed}

abbrev blank : ℕ → Bool
blank c = c == 32

abbrev sample : Str
sample = codes " ab  c "

join-split_example :
    (ps : List Str) × (split (codes "a--b") (codes "--") ≡ some ps)
    × (join_str ps (codes "--") none none ≡ codes "a--b")
join-split_example = join-split (codes "a--b") (codes "--")

replace_all-split_example :
    (ps : List Str) × (split (codes "x-y") (codes "-") ≡ some ps)
    × (replace_all (codes "x-y") (codes "-") (codes "_") ≡ some (join_str ps (codes "_") none none))
replace_all-split_example = replace_all-split (codes "x-y") (codes "-") (codes "_") (λ e. cc)

strip_quotes-append_example :
    strip_quotes (codes "\"" ++ ((codes "ab" ++ b'c' ∷ []) ++ codes "\""))
    ≡ some ((codes "ab" ++ b'c' ∷ []) ++ take (length (codes "\"")) (codes "\""))
strip_quotes-append_example =
    strip_quotes-append (codes "\"") (codes "ab") b'c' (codes "\"") (refl, tt) refl refl (refl, tt)

-- The closing quote is still there.
closing_quote_stays : strip_quotes (codes "\"abc\"") ≡ some (codes "abc\"")
unfolding strip_quotes
closing_quote_stays = refl

itoa-Printed_example : (out : Str) × (itoa (negsuc 41) [] ≡ some out) × Printed (negsuc 41) out
itoa-Printed_example = itoa-Printed (negsuc 41) [] (omega arith)

itoa_runs : itoa (negsuc 12344) (codes "abc") ≡ some (codes "-12345")
unfolding itoa
itoa_runs = refl

itoa_unsigned_runs : itoa_unsigned 4294967295 [] ≡ some (codes "4294967295")
unfolding itoa_unsigned
itoa_unsigned_runs = refl

split_runs :
    split (codes "abxycdxyxydefxya") (codes "xy")
    ≡ some (codes "ab" ∷ codes "cd" ∷ [] ∷ codes "def" ∷ codes "a" ∷ [])
unfolding split find_str is_prefix
split_runs = refl

strip_runs : strip (codes "[a]") (codes "[") (codes "]") ≡ codes "a"
unfolding strip has_prefix has_suffix str_eq
strip_runs = refl
