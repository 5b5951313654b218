-- ===== src/Media/Valid.antt =====
-- What holds of the tables of the media service between two requests, and the edits that leave it
-- alone (apps/services/media/src/modules/media.service.ts).
use xitter.Prelude.{
  ℕ, suc, ◌≤◌, ◌<◌, ◌≡◌, Bool, false, List, ◌==◌, is_some, count, All, arith, Bool-cases, inl, inr,
}
use xitter.Database.Counts.{All-mono, All-map_where}
use xitter.Media.{MediaRow, Media, MediaEvent, uploaded, processed, is_media, media_max_bytes}
use xitter.Media.Lifecycle.{edit}

abbrev pub is_uploaded : ℕ → MediaEvent → Bool
is_uploaded id (uploaded i) = i == id
is_uploaded id (processed i) = false

-- A row before request `n`: its id is used, its size is allowed, and its upload is published only
-- where it is marked.
pub record IsFine (n : ℕ) (events : List MediaEvent) (r : MediaRow) : Type 0 where
  pub used : r.id < n
  pub size : r.bytes ≤ media_max_bytes
  pub silent : is_some r.uploaded_at ≡ false → count (is_uploaded r.id) events ≡ 0

pub record IsValid (n : ℕ) (s : Media) : Type 0 where
  pub rows : All (IsFine n s.events) s.assets
  pub once : (i : ℕ) → count (is_uploaded i) s.events ≤ 1
  pub unused : (i : ℕ) → n ≤ i → count (is_uploaded i) s.events ≡ 0

-- Edits that leave the id, the size and the mark of an upload.
module _ (n id : ℕ) (s : Media) (f : MediaRow → MediaRow)
    (same_id : (r : MediaRow) → (f r).id ≡ r.id)
    (same_size : (r : MediaRow) → (f r).bytes ≡ r.bytes)
    (same_mark : (r : MediaRow) → (f r).uploaded_at ≡ r.uploaded_at) where
  pub edit-rows : All (IsFine n s.events) s.assets → All (IsFine n s.events) (edit id f s).assets
  edit-rows a =
      All-map_where (IsFine n s.events) (IsFine n s.events) (is_media id) f s.assets
        (λ r p. elim (Bool-cases (is_media id r)) [
          | inr other ↦ rw other p
          | inl here ↦ rw here (record {
            used = rw (same_id r) p.used;
            size = rw (same_size r) p.size;
            silent = λ e. rw (same_id r) (p.silent (rw (same_mark r) at e));
          })
        ])
        a

pub later : (n : ℕ) (s : Media) → IsValid n s → IsValid (suc n) s
later n s v = record {
  rows =
      All-mono (IsFine n s.events) (IsFine (suc n) s.events) s.assets
        (λ r p. record { used = omega (arith, p.used); size = p.size; silent = p.silent }) v.rows;
  once = v.once;
  unused = λ i h. v.unused i (omega arith);
}

-- A write that leaves the published uploads alone.
pub quiet :
    (n : ℕ) (s s' : Media)
    → IsValid n s
    → ((i : ℕ) → count (is_uploaded i) s'.events ≡ count (is_uploaded i) s.events)
    → All (IsFine n s.events) s'.assets
    → IsValid n s'
quiet n s s' v e a = record {
  rows =
      All-mono (IsFine n s.events) (IsFine n s'.events) s'.assets
        (λ r p. record { used = p.used; size = p.size; silent = λ m. rw (e r.id) (p.silent m) }) a;
  once = λ i. rw (e i) (v.once i);
  unused = λ i h. rw (e i) (v.unused i h);
}
