-- ===== src/Release/Tests.antt =====
-- The theorems of the release versions at concrete tags.
use xitter.Prelude.{ℕ, ◌≡◌, refl, true, false, none, some, List, [], ◌∷◌, any, all}
use xitter.Release
use xitter.Release.{SemVer, ParsedCommit, feat, fix}
use xitter.Release.Text.{parse_sem_ver-format_sem_ver}

-- v10.0.207-rc.1
abbrev candidate : SemVer
candidate = record {
  major = 10;
  minor = 0;
  patch = 207;
  prerelease = some (114 ∷ 99 ∷ 46 ∷ 49 ∷ []);
}

parse_sem_ver-format_sem_ver_example :
    Release.parse_sem_ver (Release.format_sem_ver candidate) ≡ some candidate
unfolding all
parse_sem_ver-format_sem_ver_example = parse_sem_ver-format_sem_ver candidate refl

abbrev commits : List ParsedCommit
commits = record { type = fix; breaking = false } ∷ record { type = feat; breaking = true } ∷ []

-- v0.4.12, which a breaking change takes to v0.5.0.
abbrev tag : List ℕ
tag = 118 ∷ 48 ∷ 46 ∷ 52 ∷ 46 ∷ 49 ∷ 50 ∷ []

abbrev previous : SemVer
previous = Release.released 0 4 12

breaking : Release.resolve_version none commits (some tag) ≡ some (Release.released 0 5 0)
unfolding Release.resolve_version Release.resolve_checked Release.derive_next_version
    Release.parse_sem_ver Release.read_part Release.read_number Release.read_digits any
breaking = refl
