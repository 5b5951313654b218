-- ===== src/Release.antt =====
-- The version of a release (packages/scripts/src/release-version.ts). A text is the list of its code
-- units, and a commit is given as its subject parses; numbers are exact.
pub mod Text
pub mod Next
mod Tests
use xitter.Prelude.{
  ℕ, zero, suc, ◌+◌, ◌-◌, ◌*◌, ◌/◌, ◌%◌, ◌≡◌, Bool, true, false, not, ◌&&◌, ◌||◌, Option, none,
  some, List, [], ◌∷◌, ltb, leb, ◌==◌, any, all, if◌then◌else◌,
}

pub record SemVer : Type 0 where
  pub major : ℕ
  pub minor : ℕ
  pub patch : ℕ
  pub prerelease : Option (List ℕ)

abbrev pub is_digit : ℕ → Bool
is_digit c = leb 48 c && leb c 57

-- `[0-9A-Za-z.-]`
abbrev pub is_label : ℕ → Bool
is_label c = is_digit c || (leb 65 c && leb c 90) || (leb 97 c && leb c 122) || c == 46 || c == 45

-- A number in decimal, before a text.
unfoldable pub print_from : ℕ → ℕ → List ℕ → List ℕ
print_from zero n rest = rest
print_from (suc f) n rest =
    if ltb n 10 then (48 + n) ∷ rest else print_from f (n / 10) ((48 + n % 10) ∷ rest)

abbrev pub print : ℕ → List ℕ → List ℕ
print n rest = print_from (suc n) n rest

abbrev pub print_label : Option (List ℕ) → List ℕ
print_label none = []
print_label (some []) = []
print_label (some (c ∷ cs)) = 45 ∷ c ∷ cs

unfoldable pub format_sem_ver : SemVer → List ℕ
format_sem_ver v =
    118 ∷ print v.major (46 ∷ print v.minor (46 ∷ print v.patch (print_label v.prerelease)))

-- The digits at the front of a text, after those that make `n`.
unfoldable pub read_digits : ℕ → List ℕ → ℕ × List ℕ
read_digits n [] = (n, [])
read_digits n (c ∷ cs) = if is_digit c then read_digits (n * 10 + (c - 48)) cs else (n, c ∷ cs)

-- `(\d+)`
unfoldable pub read_number : List ℕ → Option (ℕ × List ℕ)
read_number [] = none
read_number (c ∷ cs) = if is_digit c then some (read_digits 0 (c ∷ cs)) else none

abbrev pub skip_v : List ℕ → List ℕ
skip_v [] = []
skip_v (c ∷ cs) = if c == 118 then cs else c ∷ cs

-- `(\d+)\.`
unfoldable pub read_part : List ℕ → Option (ℕ × List ℕ)
read_part text = elim (read_number text) [
  | none ↦ none
  | some (n, []) ↦ none
  | some (n, c ∷ rest) ↦ if c == 46 then some (n, rest) else none
]

-- `(?:-([0-9A-Za-z.-]+))?$`
abbrev pub read_label : List ℕ → Option (Option (List ℕ))
read_label [] = some none
read_label (c ∷ []) = none
read_label (c ∷ d ∷ ds) = if c == 45 && all is_label (d ∷ ds) then some (some (d ∷ ds)) else none

unfoldable pub parse_sem_ver : List ℕ → Option SemVer
parse_sem_ver tag = elim (read_part (skip_v tag)) [
  | none ↦ none
  | some (major, after_major) ↦ elim (read_part after_major) [
    | none ↦ none
    | some (minor, after_minor) ↦ elim (read_number after_minor) [
      | none ↦ none
      | some (patch, after_patch) ↦ elim (read_label after_patch) [
        | none ↦ none
        | some label ↦
            some (record { major = major; minor = minor; patch = patch; prerelease = label })
      ]
    ]
  ]
]

pub data CommitType : Type 0 where
  feat fix perf other : CommitType

-- A commit whose subject is conventional.
pub record ParsedCommit : Type 0 where
  pub type : CommitType
  pub breaking : Bool

abbrev pub is_feat : ParsedCommit → Bool
is_feat c = elim c.type [ feat ↦ true | _ ↦ false ]

abbrev pub released : ℕ → ℕ → ℕ → SemVer
released major minor patch = record {
  major = major;
  minor = minor;
  patch = patch;
  prerelease = none;
}

unfoldable pub derive_next_version : List ParsedCommit → Option SemVer → SemVer
derive_next_version parsed none = released 0 1 0
derive_next_version parsed (some previous) =
    if any (λ c. c.breaking) parsed
    then (if previous.major == 0
        then released 0 (previous.minor + 1) 0
        else released (previous.major + 1) 0 0)
    else if any is_feat parsed
    then released previous.major (previous.minor + 1) 0
    else released previous.major previous.minor (previous.patch + 1)

-- `compareVersions (a, b) > 0`
abbrev pub is_greater : SemVer → SemVer → Bool
is_greater a b =
    if not (a.major == b.major)
    then ltb b.major a.major
    else if not (a.minor == b.minor)
    then ltb b.minor a.minor
    else ltb b.patch a.patch

-- `none` where the script fails.
unfoldable pub resolve_checked : SemVer → Option SemVer → Option SemVer
resolve_checked version none = some version
resolve_checked version (some previous) = elim version.prerelease [
  | some label ↦ some version
  | none ↦ if is_greater version previous then some version else none
]

abbrev pub resolve_after : Option (List ℕ) → List ParsedCommit → Option SemVer → Option SemVer
resolve_after none commits previous =
    resolve_checked (derive_next_version commits previous) previous
resolve_after (some text) commits previous = elim (parse_sem_ver text) [
  | none ↦ none
  | some version ↦ resolve_checked version previous
]

unfoldable pub resolve_version :
    Option (List ℕ) → List ParsedCommit → Option (List ℕ) → Option SemVer
resolve_version explicit commits none = resolve_after explicit commits none
resolve_version explicit commits (some tag) = elim (parse_sem_ver tag) [
  | none ↦ none
  | some previous ↦ resolve_after explicit commits (some previous)
]
