-- ===== src/Index/Query.antt =====
-- The text matching of src/WinBlaze.Index/src/query.rs.

pub mod Contains
pub mod Filters
use win_blaze.Base.{
  ℕ, ◌+◌, ◌≤◌, Bool, true, false, ◌&&◌, ◌||◌, List, [], ◌∷◌, leb, ltb, if◌then◌else◌, length, take,
  map,
}
use win_blaze.Base.Text.{Text, text_eq}
use win_blaze.Core.Query.{MatchMode, exact, prefix, contains, substring}

-- `u8::to_ascii_lowercase`
unfoldable pub lower : ℕ → ℕ
lower b = if leb b'A' b && leb b b'Z' then b + 32 else b

abbrev pub lowered : Text → Text
lowered = map lower

unfoldable pub eq_ignore_ascii_case : Text → Text → Bool
unfolding text_eq
eq_ignore_ascii_case a b = text_eq (lowered a) (lowered b)

unfoldable pub starts_with_ignore_ascii_case : Text → Text → Bool
unfolding eq_ignore_ascii_case
starts_with_ignore_ascii_case haystack needle =
    if ltb (length haystack) (length needle)
    then false
    else eq_ignore_ascii_case (take (length needle) haystack) needle

-- `windows(needle.len()).any(…)`, for a needle that is not empty
unfoldable pub any_window : Text → Text → Bool
unfolding starts_with_ignore_ascii_case
any_window [] needle = false
any_window (b ∷ haystack) needle =
    starts_with_ignore_ascii_case (b ∷ haystack) needle || any_window haystack needle

unfoldable pub contains_ignore_ascii_case : Text → Text → Bool
unfolding any_window
contains_ignore_ascii_case haystack [] = true
contains_ignore_ascii_case haystack (c ∷ needle) = any_window haystack (c ∷ needle)

unfoldable pub matches_text : Text → MatchMode → Text → Text → Bool
unfolding eq_ignore_ascii_case starts_with_ignore_ascii_case contains_ignore_ascii_case
matches_text pattern' exact name full_path =
    eq_ignore_ascii_case name pattern' || eq_ignore_ascii_case full_path pattern'
matches_text pattern' prefix name full_path =
    starts_with_ignore_ascii_case name pattern' || starts_with_ignore_ascii_case full_path pattern'
matches_text pattern' _ name full_path =
    contains_ignore_ascii_case name pattern' || contains_ignore_ascii_case full_path pattern'
