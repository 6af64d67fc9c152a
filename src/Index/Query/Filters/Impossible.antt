-- ===== src/Index/Query/Filters/Impossible.antt =====
-- The early return of `search` is sound: it returns no hit where there is none.
use win_blaze.Base.{
  ℕ, zero, suc, ◌+◌, ◌*◌, ◌≡◌, refl, ap, ◌∙◌, inl, inr, Bool-cases, Bool, true, false, ◌&&◌, ◌||◌,
  Option, none, some, List, [], ◌∷◌, arith, ◌==◌, if◌then◌else◌, length, take,
}
use win_blaze.Base.Int.{ℤ}
use win_blaze.Base.Text.{Text}
use win_blaze.Core.Model.{FileRecord, DirectoryRecord}
use win_blaze.Core.Query.{SearchQuery}
use win_blaze.Index.Query.Filters.{
  min_passes, max_passes, after_passes, before_passes, matches_query, FileMatchParams, CandidateHit,
  params, file_hits, directory_hits, collect_hits, zip_size, zip_date, is_zero, finds_nothing,
  truncate,
}

sizes-false :
    (low high : Option ℕ) (size : ℕ)
    → zip_size low high ≡ true
    → (min_passes low size && max_passes high size) ≡ false
unfolding min_passes max_passes
sizes-false none high size h = absurd (ground arith)
sizes-false (some low) none size h = absurd (ground arith)
sizes-false (some low) (some high) size h = ground arith

dates-false :
    (after before modified : Option ℤ)
    → zip_date after before ≡ true
    → (after_passes after modified && before_passes before modified) ≡ false
unfolding after_passes before_passes
dates-false none before modified h = absurd (ground arith)
dates-false (some after) none modified h = absurd (ground arith)
dates-false (some after) (some before) none h = refl
dates-false (some after) (some before) (some value) h = ground arith

take-nil : (n : ℕ) → take {A = CandidateHit} n [] ≡ []
take-nil zero = refl
take-nil (suc n) = refl

-- Filters that contradict each other.
abbrev is_contradictory : SearchQuery → Bool
is_contradictory query =
    zip_size query.size.min_bytes query.size.max_bytes
    || zip_date query.modified.modified_after_utc query.modified.modified_before_utc

module _ (trim : Text → Text) (extension_of : Text → Option Text) (query : SearchQuery) where
  matches_query-false :
      (text : Option Text) (extensions : List Text) (file_params : FileMatchParams)
      → is_contradictory query ≡ true
      → matches_query extension_of query text extensions file_params ≡ false
  unfolding matches_query
  matches_query-false text extensions file_params h = ground (
    arith,
    h,
    sizes-false query.size.min_bytes query.size.max_bytes file_params.size_bytes,
    dates-false query.modified.modified_after_utc query.modified.modified_before_utc
        file_params.modified_utc,
  )

  file_hits-nil :
      (files : List FileRecord)
      → is_contradictory query ≡ true
      → file_hits trim extension_of query files ≡ []
  unfolding file_hits
  file_hits-nil [] h = refl
  file_hits-nil (f ∷ files) h =
      rw (matches_query-false _ _ (params (CandidateHit.file f)) h) (file_hits-nil files h)

  directory_hits-nil :
      (directories : List DirectoryRecord)
      → is_contradictory query ≡ true
      → directory_hits trim extension_of query directories ≡ []
  unfolding directory_hits
  directory_hits-nil [] h = refl
  directory_hits-nil (d ∷ directories) h =
      rw (matches_query-false _ _ (params (CandidateHit.directory d)) h)
        (directory_hits-nil directories h)

  collect_hits-nil :
      (files : List FileRecord) (directories : List DirectoryRecord)
      → is_contradictory query ≡ true
      → collect_hits trim extension_of query files directories ≡ []
  unfolding collect_hits
  collect_hits-nil files directories h =
      rw (file_hits-nil files h, directory_hits-nil directories h) (ground arith)

  -- No candidate of a kind that the query includes.
  no_candidates :
      (files : List FileRecord) (directories : List DirectoryRecord)
      → ((if query.include_files then 1 else 0) * length files
            + (if query.include_directories then 1 else 0) * length directories
          == 0)
        ≡ true
      → collect_hits trim extension_of query files directories ≡ []
  unfolding collect_hits file_hits directory_hits
  no_candidates [] [] h = ground arith
  no_candidates (f ∷ files) [] h = ground (arith, h)
  no_candidates [] (d ∷ directories) h = ground (arith, h)
  no_candidates (f ∷ files) (d ∷ directories) h = ground (arith, h)

  truncate-nil : (limit : Option ℕ) → truncate limit [] ≡ []
  truncate-nil none = refl
  truncate-nil (some limit) = take-nil limit

  truncate-zero :
      (limit : Option ℕ) (hits : List CandidateHit)
      → is_zero limit ≡ true
      → truncate limit hits ≡ []
  truncate-zero none hits h = absurd (ground arith)
  truncate-zero (some limit) hits h = let e : limit ≡ 0 = ground (arith, h) in rw e refl

  -- Where a search returns early with no hit, the hits that it would collect and truncate are
  -- none either.
  pub finds_nothing-truncate :
      (files : List FileRecord) (directories : List DirectoryRecord)
      → finds_nothing query files directories ≡ true
      → truncate query.limit (collect_hits trim extension_of query files directories) ≡ []
  unfolding finds_nothing
  finds_nothing-truncate files directories h = elim (Bool-cases (is_zero query.limit)) [
    | inl t ↦ truncate-zero query.limit (collect_hits trim extension_of query files directories) t
    | inr t ↦ elim (Bool-cases (is_contradictory query)) [
      | inl u ↦
          ap (truncate query.limit) (collect_hits-nil files directories u)
          ∙ truncate-nil query.limit
      | inr u ↦
          ap (truncate query.limit) (no_candidates files directories (ground (arith, h, t, u)))
          ∙ truncate-nil query.limit
    ]
  ]
