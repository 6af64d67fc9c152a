-- ===== src/Core/Tests.antt =====
-- The theorems about src/WinBlaze.Core at concrete inputs.
use win_blaze.Base.{◌≡◌, refl, none, some, [], ◌∷◌, arith}
use win_blaze.Base.Int.{pos, negsuc}
use win_blaze.Base.Text.{text_eq}
use win_blaze.Core.Timestamps.{new_timestamps, created, modified, accessed, stamps-new_timestamps}
use win_blaze.Core.Model.{renamed}
use win_blaze.Core.Samples.{file_3, file_7, file_7_renamed, file_9}
use win_blaze.Core.Changes.{diff_file_records}
use win_blaze.Core.Changes.PerFile.{
  HasUniqueIds, changes_of, expected_changes, record_of, changes_of-diff_file_records,
}

stamps-new_timestamps_example :
    (created (new_timestamps none (some (negsuc 4)) (some (pos 0))) ≡ none)
    × (modified (new_timestamps none (some (negsuc 4)) (some (pos 0))) ≡ some (negsuc 4))
    × (accessed (new_timestamps none (some (negsuc 4)) (some (pos 0))) ≡ some (pos 0))
stamps-new_timestamps_example = stamps-new_timestamps none (some (negsuc 4)) (some (pos 0))

unique : HasUniqueIds (file_3 ∷ file_7 ∷ [])
unique = ((λ e. omega (arith, e), tt), (tt, tt))

unique_later : HasUniqueIds (file_7_renamed ∷ file_9 ∷ [])
unique_later = ((λ e. omega (arith, e), tt), (tt, tt))

changes_of-diff_file_records_example :
    changes_of 7 (diff_file_records (file_3 ∷ file_7 ∷ []) (file_7_renamed ∷ file_9 ∷ [])).changes
    ≡ expected_changes
        (record_of 7 (file_3 ∷ file_7 ∷ []))
        (record_of 7 (file_7_renamed ∷ file_9 ∷ []))
changes_of-diff_file_records_example =
    changes_of-diff_file_records (file_3 ∷ file_7 ∷ []) (file_7_renamed ∷ file_9 ∷ []) 7 unique
      unique_later

-- A file under another name is renamed.
renamed_test :
    expected_changes
      (record_of 7 (file_3 ∷ file_7 ∷ []))
      (record_of 7 (file_7_renamed ∷ file_9 ∷ []))
    ≡ record {
      file_id = 7;
      kind = renamed;
      previous_full_path = some [];
      current_full_path = some [];
    }
      ∷ []
unfolding expected_changes record_of text_eq
renamed_test = refl
