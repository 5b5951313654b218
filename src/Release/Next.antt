-- ===== src/Release/Next.antt =====
-- The version that a release gets (packages/scripts/src/release-version.ts, deriveNextVersion and
-- resolveVersion).
use xitter.Prelude.{ℕ, ◌≡◌, refl, true, none, some, List, ◌∷◌, arith}
use xitter.Release.{
  SemVer, ParsedCommit, derive_next_version, is_greater, resolve_checked, resolve_version,
  format_sem_ver, parse_sem_ver,
}
use xitter.Release.Text.{is_printable, parse_sem_ver-format_sem_ver}

-- Whatever was committed since a tag that is a version: the version that is derived is a release and
-- greater than the tag's, and the script takes it.
pub resolve_version-derived :
    (commits : List ParsedCommit) (tag : List ℕ) (previous : SemVer)
    → parse_sem_ver tag ≡ some previous
    → let next = derive_next_version commits (some previous) in
      (resolve_version none commits (some tag) ≡ some next)
      × (next.prerelease ≡ none)
      × (is_greater next previous ≡ true)
unfolding resolve_version resolve_checked derive_next_version
resolve_version-derived commits tag previous h = ground (arith, h)

-- The release of a version is refused after its own prerelease, where the label of that is printable,
-- although it comes after it.
pub resolve_version-prerelease :
    (commits : List ParsedCommit) (v : SemVer) (c : ℕ) (cs : List ℕ)
    → v.prerelease ≡ some (c ∷ cs)
    → is_printable v.prerelease ≡ true
    → resolve_version
        (some (format_sem_ver (record v { prerelease = none })))
        commits
        (some (format_sem_ver v))
      ≡ none
unfolding resolve_version resolve_checked
resolve_version-prerelease commits v c cs e h = ground (
  arith,
  parse_sem_ver-format_sem_ver v h,
  parse_sem_ver-format_sem_ver (record v { prerelease = none }) refl,
)
