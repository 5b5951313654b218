-- ===== src/Seed/Probe.antt =====
-- Whether an environment is seeded (packages/scripts/src/seed.ts, probeState, probeUser and
-- skipIfSeeded). What the profile and the posts of a user are read as is an argument: whether the
-- profile is there, and how many posts there are, `none` where the read fails.
use xitter.Prelude.{
  ℕ, suc, ◌+◌, ◌≡◌, refl, Bool, not, ◌&&◌, ◌||◌, Option, none, some, List, [], ◌∷◌, length, ltb,
  leb, ◌==◌, if◌then◌else◌, All, arith,
}

pub data UserProbe : Type 0 where
  matching at_least empty absent : UserProbe

pub data ProbeState : Type 0 where
  seeded seeded_plus partial fresh : ProbeState

pub record Reading : Type 0 where
  pub profile : Bool
  pub posts : Option ℕ
  pub expected : ℕ

unfoldable pub probe_user : Reading → UserProbe
probe_user r = elim r.posts [
  | none ↦ absent
  | some count ↦
      if r.profile && count == r.expected
      then matching
      else if r.profile && leb r.expected count
      then at_least
      else if not r.profile && count == 0
      then empty
      else absent
]

pub record Seen : Type 0 where
  pub n_matching : ℕ
  pub n_at_least : ℕ
  pub n_empty : ℕ
  pub n_absent : ℕ

abbrev pub tally : UserProbe → Seen → Seen
tally matching s = record s { n_matching = suc s.n_matching }
tally at_least s = record s { n_at_least = suc s.n_at_least }
tally empty s = record s { n_empty = suc s.n_empty }
tally absent s = record s { n_absent = suc s.n_absent }

unfoldable pub seen_of : List Reading → Seen
seen_of [] = record { n_matching = 0; n_at_least = 0; n_empty = 0; n_absent = 0 }
seen_of (r ∷ rs) = tally (probe_user r) (seen_of rs)

abbrev pub judge : ℕ → Seen → ProbeState
judge total s =
    if s.n_matching == total
    then seeded
    else if s.n_matching + s.n_at_least == total
    then seeded_plus
    else if ltb 0 s.n_matching || ltb 0 s.n_at_least || ltb 0 s.n_empty && ltb s.n_empty total
    then partial
    else fresh

unfoldable pub probe_state : List Reading → ProbeState
probe_state rs = judge (length rs) (seen_of rs)

-- The posts service does not answer for any user.
abbrev pub IsOutage : Reading → Type 0
IsOutage r = r.posts ≡ none

all_absent :
    (rs : List Reading)
    → All IsOutage rs
    → seen_of rs ≡ record { n_matching = 0; n_at_least = 0; n_empty = 0; n_absent = length rs }
unfolding seen_of probe_user
all_absent [] h = refl
all_absent (r ∷ rs) h = ground (arith, h.0, all_absent rs h.1)

-- Where the posts service does not answer the probe for any of the users, the environment is taken
-- for one that was never seeded, whatever it holds.
pub probe_state-outage :
    (r : Reading) (rs : List Reading) → All IsOutage (r ∷ rs) → probe_state (r ∷ rs) ≡ fresh
unfolding probe_state
probe_state-outage r rs h = rw (all_absent (r ∷ rs) h) (ground arith)
