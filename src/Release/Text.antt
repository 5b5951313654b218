-- ===== src/Release/Text.antt =====
-- A version that is printed parses back (packages/scripts/src/release-version.ts, formatSemVer and
-- parseSemVer).
use xitter.Prelude.{
  ℕ, zero, suc, ◌+◌, ◌/◌, ◌%◌, ◌<◌, ◌≡◌, refl, Bool, true, false, not, Option, none, some, List, [],
  ◌∷◌, ltb, all, arith, Bool-cases, inl, inr,
}
use xitter.Release.{
  SemVer, is_digit, is_label, print_from, print, print_label, format_sem_ver, read_digits,
  read_number, read_part, read_label, parse_sem_ver,
}

-- The text goes on with no digit.
abbrev ends : List ℕ → Bool
ends [] = true
ends (c ∷ cs) = not (is_digit c)

-- A label that the syntax allows.
abbrev pub is_printable : Option (List ℕ) → Bool
is_printable none = true
is_printable (some []) = false
is_printable (some (c ∷ cs)) = all is_label (c ∷ cs)

read_digits-print :
    (f n : ℕ) (rest : List ℕ) → n < f → read_digits 0 (print_from f n rest) ≡ read_digits n rest
unfolding print_from read_digits
read_digits-print zero n rest h = absurd (omega (arith, h))
read_digits-print (suc f) n rest h = elim (Bool-cases (ltb n 10)) [
  | inl small ↦ ground (arith, small)
  | inr big ↦
      ground
        (arith, big, read_digits-print f (n / 10) ((48 + n % 10) ∷ rest) (ground (arith, big, h)))
]

read_digits-ends : (n : ℕ) (rest : List ℕ) → ends rest ≡ true → read_digits n rest ≡ (n, rest)
unfolding read_digits
read_digits-ends n [] h = refl
read_digits-ends n (c ∷ cs) h = ground (arith, h)

ends-print : (f n : ℕ) (rest : List ℕ) → n < f → ends (print_from f n rest) ≡ false
unfolding print_from
ends-print zero n rest h = absurd (omega (arith, h))
ends-print (suc f) n rest h = elim (Bool-cases (ltb n 10)) [
  | inl small ↦ ground (arith, small)
  | inr big ↦
      ground (arith, big, ends-print f (n / 10) ((48 + n % 10) ∷ rest) (ground (arith, big, h)))
]

read_number_lem : (text : List ℕ) → ends text ≡ false → read_number text ≡ some (read_digits 0 text)
unfolding read_number
read_number_lem [] h = absurd (cc h)
read_number_lem (c ∷ cs) h = ground (arith, h)

read_number-print :
    (n : ℕ) (rest : List ℕ) → ends rest ≡ true → read_number (print n rest) ≡ some (n, rest)
read_number-print n rest h = ground (
  arith,
  read_number_lem (print n rest) (ends-print (suc n) n rest (omega arith)),
  read_digits-print (suc n) n rest (omega arith),
  read_digits-ends n rest h,
)

read_part-print : (n : ℕ) (rest : List ℕ) → read_part (print n (46 ∷ rest)) ≡ some (n, rest)
unfolding read_part
read_part-print n rest = ground (arith, read_number-print n (46 ∷ rest) refl)

print_label-ends : (label : Option (List ℕ)) → ends (print_label label) ≡ true
print_label-ends none = refl
print_label-ends (some []) = refl
print_label-ends (some (c ∷ cs)) = refl

read_label-print :
    (label : Option (List ℕ))
    → is_printable label ≡ true
    → read_label (print_label label) ≡ some label
read_label-print none h = refl
read_label-print (some []) h = absurd (cc h)
read_label-print (some (c ∷ cs)) h = ground (arith, h)

-- A version that is a release, or whose prerelease label is not empty and has letters, digits, points
-- and hyphens only, parses back as itself when it is printed.
pub parse_sem_ver-format_sem_ver :
    (v : SemVer) → is_printable v.prerelease ≡ true → parse_sem_ver (format_sem_ver v) ≡ some v
unfolding parse_sem_ver format_sem_ver
parse_sem_ver-format_sem_ver v h =
    let label = print_label v.prerelease in
    let after_minor = print v.patch label in
    let after_major = print v.minor (46 ∷ after_minor) in
    ground (
      arith,
      read_part-print v.major after_major,
      read_part-print v.minor after_minor,
      read_number-print v.patch label (print_label-ends v.prerelease),
      read_label-print v.prerelease h,
    )
