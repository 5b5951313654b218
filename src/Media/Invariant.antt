-- ===== src/Media/Invariant.antt =====
-- What holds of the images over every sequence of requests
-- (apps/services/media/src/modules/media.service.ts). A new image has an id that was never used: the
-- requests are numbered.
use xitter.Prelude.{
  ℕ, suc, ◌≤◌, ◌≡◌, refl, Bool, true, false, Option, none, some, List, [], ◌∷◌, ◌==◌, ltb, is_some,
  any, count, find?, arith, Option-cases, Bool-cases, inl, inr,
}
use xitter.Database.Counts.{All-map_where, All-reject, All-find?, find?-any}
use xitter.Database.Rows.{reject_all}
use xitter.Media.{
  MediaRow, MediaDb, Media, MimeType, Head, broken, absent, found, Env, MediaEvent, uploaded,
  processed, VariantRecord, is_media, media_max_bytes, create_upload, complete, record_variants,
  report_failure, admin_delete, reseed, owned_object_keys, is_rejected, is_failed, is_ready,
}
use xitter.Media.Rows.{remove_objects_lem}
use xitter.Media.Valid.{is_uploaded, IsFine, IsValid, edit-rows, later, quiet}
use xitter.Media.Lookup.{lookup, lookup-IsValid}
use xitter.Media.Lifecycle.{
  uploaded_row, failed_row, ready_row, attempted_row, edit, publish, gives_up, create_upload_lem,
  complete_lem, record_variants_lem, report_failure_lem, admin_delete_lem, deleted_from,
}

pub data Request : Type 0 where
  created : Bool → ℕ → Option MimeType → ℕ → Request
  completed : ℕ → ℕ → Head → Request
  recorded : ℕ → List VariantRecord → Request
  reported : ℕ → Request
  deleted : ℕ → ℕ → Request
  looked_up : ℕ → List ℕ → List (ℕ × ℕ) → Request
  reseeded : Request

module _ (db : MediaDb) (env : Env) where
  unfoldable pub handle : ℕ → Request → Media → Media
  handle n (created signs owner mime bytes) s =
      (create_upload db (record env { fresh_id = n }) signs owner mime bytes s).1
  handle n (completed owner id head) s = (complete db env owner id head s).1
  handle n (recorded id variants) s = (record_variants db env id variants s).1
  handle n (reported id) s = (report_failure db id s).1
  handle n (deleted actor id) s = (admin_delete db actor id s).1
  handle n (looked_up owner ids texts) s = (lookup db owner ids texts s).1
  handle n reseeded s = (reseed db s).1

  -- The requests from number `n` on.
  unfoldable pub run_requests : ℕ → List Request → Media → Media
  run_requests n [] s = s
  run_requests n (r ∷ rs) s = run_requests (suc n) rs (handle n r s)

  created-IsValid :
      (n : ℕ) (signs : Bool) (owner : ℕ) (mime : Option MimeType) (bytes : ℕ) (s : Media)
      → IsValid n s
      → IsValid (suc n) (create_upload db (record env { fresh_id = n }) signs owner mime bytes s).1
  created-IsValid n signs owner none bytes s v =
      rw (create_upload_lem db (record env { fresh_id = n }) signs owner none bytes s) (later n s v)
  created-IsValid n signs owner (some m) bytes s v =
      rw (create_upload_lem db (record env { fresh_id = n }) signs owner (some m) bytes s)
        (elim (Bool-cases (ltb media_max_bytes bytes)) [
          | inl big ↦ rw big (later n s v)
          | inr small ↦ rw small (elim (Bool-cases (any (is_media n) s.assets)) [
            | inl taken ↦ rw taken (later n s v)
            | inr free ↦ rw free (record {
              rows = (
                record {
                  used = omega arith;
                  size = ground arith;
                  silent = λ e. v.unused n (omega arith);
                },
                (later n s v).rows,
              );
              once = v.once;
              unused = (later n s v).unused;
            })
          ])
        ])

  publish-quiet :
      (e : MediaEvent) (s : Media) (i : ℕ)
      → is_uploaded i e ≡ false
      → count (is_uploaded i) (publish env e s).events ≡ count (is_uploaded i) s.events
  unfolding count
  publish-quiet e s i h = ground arith

  -- The upload of one row is marked and published.
  uploaded-IsValid :
      (n id bytes : ℕ) (r : MediaRow) (s : Media)
      → IsValid n s
      → find? (is_media id) s.assets ≡ some r
      → is_some r.uploaded_at ≡ false
      → bytes ≤ media_max_bytes
      → IsValid n (publish env (uploaded id) (edit id (uploaded_row env.now bytes) s))
  unfolding count
  uploaded-IsValid n id bytes r s v e unmarked size =
      let p = All-find? (IsFine n s.events) (is_media id) s.assets r e v.rows in
      let same : r.id ≡ id = ground (arith, find?-any (is_media id) s.assets r e) in
      let quiet_yet = p.silent unmarked in
      record {
        rows =
            All-map_where (IsFine n s.events)
              (IsFine n (publish env (uploaded id) (edit id (uploaded_row env.now bytes) s)).events)
              (is_media id) (uploaded_row env.now bytes) s.assets
              (λ x q. elim (Bool-cases (is_media id x)) [
                | inl here ↦ rw here (record { used = q.used; size = size; silent = λ m. cc m })
                | inr other ↦ rw other (record {
                  used = q.used;
                  size = q.size;
                  silent = λ m. ground (arith, q.silent m);
                })
              ])
              v.rows;
        once = λ i. ground (arith, v.once i);
        unused = λ i h. ground (arith, v.unused i h, p.used);
      }

  completed-IsValid :
      (n owner id : ℕ) (head : Head) (s : Media)
      → IsValid n s
      → IsValid n (complete db env owner id head s).1
  completed-IsValid n owner id broken s v =
      let same : (complete db env owner id broken s).1 ≡ s =
        ground (arith, complete_lem db env owner id broken s) in
      rw same v
  completed-IsValid n owner id absent s v =
      let same : (complete db env owner id absent s).1 ≡ s =
        ground (arith, complete_lem db env owner id absent s) in
      rw same v
  completed-IsValid n owner id (found stat) s v =
      rw (complete_lem db env owner id (found stat) s)
        (elim (Option-cases (find? (is_media id) s.assets)) [
          | inl e ↦ rw e v
          | inr (r, e) ↦ rw e (elim (Bool-cases (r.owner_id == owner)) [
            | inr other ↦ rw other v
            | inl mine ↦ rw mine (elim (Bool-cases (is_failed r.status)) [
              | inl dead ↦ rw dead v
              | inr alive ↦ rw alive (elim (Bool-cases (is_rejected stat)) [
                | inl bad ↦ rw bad (
                    quiet n s _ v (λ i. refl)
                      (edit-rows n id s failed_row (λ x. refl) (λ x. refl) (λ x. refl) v.rows))
                | inr good ↦ rw good (elim (Bool-cases (is_some r.uploaded_at)) [
                  | inl again ↦ rw again v
                  | inr first ↦
                      rw first (uploaded-IsValid n id stat.bytes r s v e first (ground arith))
                ])
              ])
            ])
          ])
        ])

  recorded-IsValid :
      (n id : ℕ) (variants : List VariantRecord) (s : Media)
      → IsValid n s
      → IsValid n (record_variants db env id variants s).1
  recorded-IsValid n id variants s v =
      rw (record_variants_lem db env id variants s)
        (elim (Option-cases (find? (is_media id) s.assets)) [
          | inl e ↦ rw e v
          | inr (r, e) ↦ rw e (elim (Bool-cases (is_ready r.status)) [
            | inl done ↦ rw done v
            | inr waits ↦ rw waits (
                quiet n s _ v
                  (λ i. publish-quiet (processed id) (edit id (ready_row variants) s) i refl)
                  (edit-rows n id s (ready_row variants) (λ x. refl) (λ x. refl) (λ x. refl)
                    v.rows))
          ])
        ])

  reported-IsValid : (n id : ℕ) (s : Media) → IsValid n s → IsValid n (report_failure db id s).1
  reported-IsValid n id s v =
      rw (report_failure_lem db id s) (elim (Option-cases (find? (is_media id) s.assets)) [
        | inl e ↦ rw e v
        | inr (r, e) ↦ rw e (elim (Bool-cases (gives_up r)) [
          | inl last ↦ rw last (
              quiet n s _ v (λ i. refl)
                (edit-rows n id s (attempted_row true) (λ x. refl) (λ x. refl) (λ x. refl) v.rows))
          | inr more ↦ rw more (
              quiet n s _ v (λ i. refl)
                (edit-rows n id s (attempted_row false) (λ x. refl) (λ x. refl) (λ x. refl) v.rows))
        ])
      ])

  deleted-IsValid :
      (n actor id : ℕ) (s : Media) → IsValid n s → IsValid n (admin_delete db actor id s).1
  deleted-IsValid n actor id s v =
      rw (admin_delete_lem db actor id s) (elim (Option-cases (find? (is_media id) s.assets)) [
        | inl e ↦ rw e v
        | inr (r, e) ↦
            let after = remove_objects_lem (owned_object_keys r) (deleted_from db actor id s) in
            rw e (
              quiet n s _ v (λ i. rw after.2 refl)
                (rw (after.1, db.asset.delete_many_lem (is_media id) s.assets)
                  (All-reject (IsFine n s.events) (IsFine n s.events) (is_media id) s.assets
                    (λ x g p. p) v.rows)))
      ])

  reseeded-IsValid : (n : ℕ) (s : Media) → IsValid n s → IsValid n (reseed db s).1
  unfolding reseed
  reseeded-IsValid n s v =
      quiet n s _ v (λ i. refl)
        (rw (db.asset.delete_many_lem (λ r. true) s.assets, reject_all s.assets) tt)

  handle-IsValid : (n : ℕ) (r : Request) (s : Media) → IsValid n s → IsValid (suc n) (handle n r s)
  unfolding handle
  handle-IsValid n (created signs owner mime bytes) s v =
      created-IsValid n signs owner mime bytes s v
  handle-IsValid n (completed owner id head) s v = later n _ (completed-IsValid n owner id head s v)
  handle-IsValid n (recorded id variants) s v = later n _ (recorded-IsValid n id variants s v)
  handle-IsValid n (reported id) s v = later n _ (reported-IsValid n id s v)
  handle-IsValid n (deleted actor id) s v = later n _ (deleted-IsValid n actor id s v)
  handle-IsValid n (looked_up owner ids texts) s v =
      later n _ (lookup-IsValid db n owner ids texts s v)
  handle-IsValid n reseeded s v = later n _ (reseeded-IsValid n s v)

  -- Through any sequence of requests, with whatever the storage finds, from tables where it holds: the
  -- upload of an image is published at most once, however often its completion is asked for, and only
  -- with a mark in its row; and no row says that its image is larger than 5 MB.
  pub run_requests-IsValid :
      (n : ℕ) (rs : List Request) (s : Media)
      → IsValid n s
      → (m : ℕ) × IsValid m (run_requests n rs s)
  unfolding run_requests
  run_requests-IsValid n [] s v = (n, v)
  run_requests-IsValid n (r ∷ rs) s v =
      run_requests-IsValid (suc n) rs (handle n r s) (handle-IsValid n r s v)
