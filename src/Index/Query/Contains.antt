-- ===== src/Index/Query/Contains.antt =====
-- When one text contains another, but for the case of letters.
use win_blaze.Base.{
  ℕ, zero, suc, ◌≤◌, ◌≡◌, refl, ap, ◌∙◌, ◌↔◌, inl, inr, true, Bool-cases, [], ◌∷◌, ◌++◌, arith,
  length, take, drop,
}
use win_blaze.Base.Text.{Text, text_eq→eq, text_eq_refl}
use win_blaze.Index.Query.{
  lower, lowered, eq_ignore_ascii_case, starts_with_ignore_ascii_case, any_window,
  contains_ignore_ascii_case,
}

-- The lowered haystack holds the lowered needle, between what stands before and behind.
Holds : Text → Text → Type 0
Holds haystack needle =
    (before : Text) × (behind : Text) × (lowered haystack ≡ before ++ (lowered needle ++ behind))

split_at : (n : ℕ) (t : Text) → lowered t ≡ lowered (take n t) ++ lowered (drop n t)
split_at zero t = refl
split_at (suc n) [] = refl
split_at (suc n) (b ∷ t) = ap (λ r. lower b ∷ r) (split_at n t)

starts_with-Holds :
    (haystack needle : Text)
    → starts_with_ignore_ascii_case haystack needle ≡ true
    → (behind : Text) × (lowered haystack ≡ lowered needle ++ behind)
unfolding starts_with_ignore_ascii_case eq_ignore_ascii_case
starts_with-Holds haystack needle h =
    let same : lowered (take (length needle) haystack) ≡ lowered needle =
      text_eq→eq _ _ (ground arith) in
    (lowered (drop (length needle) haystack), split_at (length needle) haystack ∙ rw same refl)

any_window-Holds :
    (haystack needle : Text) → any_window haystack needle ≡ true → Holds haystack needle
unfolding any_window Holds
any_window-Holds [] needle h = absurd cc
any_window-Holds (b ∷ haystack) needle h =
    elim (Bool-cases (starts_with_ignore_ascii_case (b ∷ haystack) needle)) [
      | inl starts ↦
          let (behind, e) = starts_with-Holds (b ∷ haystack) needle starts in ([], behind, e)
      | inr later ↦
          let (before, behind, e) = any_window-Holds haystack needle (ground arith) in
          (lower b ∷ before, behind, ap (λ r. lower b ∷ r) e)
    ]

prefix_eq :
    (haystack needle behind : Text)
    → lowered haystack ≡ lowered needle ++ behind
    → (length needle ≤ length haystack) × (lowered (take (length needle) haystack) ≡ lowered needle)
prefix_eq haystack [] behind e = (omega arith, refl)
prefix_eq [] (c ∷ needle) behind e = absurd (ground arith)
prefix_eq (b ∷ haystack) (c ∷ needle) behind e =
    let (l, e') = prefix_eq haystack needle behind (ground arith) in
    (omega (arith, l), ground (arith, e'))

starts_with-of_prefix :
    (haystack needle behind : Text)
    → lowered haystack ≡ lowered needle ++ behind
    → starts_with_ignore_ascii_case haystack needle ≡ true
unfolding starts_with_ignore_ascii_case eq_ignore_ascii_case
starts_with-of_prefix haystack needle behind e =
    let (l, e') = prefix_eq haystack needle behind e in
    rw e' (ground (arith, l, text_eq_refl (lowered needle)))

any_window-of_split :
    (haystack before needle behind : Text) (c : ℕ)
    → lowered haystack ≡ before ++ (lowered (c ∷ needle) ++ behind)
    → any_window haystack (c ∷ needle) ≡ true
unfolding any_window
any_window-of_split [] [] needle behind c e = absurd (ground arith)
any_window-of_split [] (p ∷ before) needle behind c e = absurd (ground arith)
any_window-of_split (b ∷ haystack) [] needle behind c e =
    rw (starts_with-of_prefix (b ∷ haystack) (c ∷ needle) behind e) refl
any_window-of_split (b ∷ haystack) (p ∷ before) needle behind c e =
    let more = any_window-of_split haystack before needle behind c (ground arith) in
    ground (arith, more)

-- A text contains another, but for the case of ASCII letters, exactly when the second in lower
-- case stands somewhere in the first in lower case.
pub contains_ignore_ascii_case_iff :
    (haystack needle : Text)
    → (contains_ignore_ascii_case haystack needle ≡ true) ↔ (
        (before : Text) × (behind : Text) × (lowered haystack
          ≡ before ++ (lowered needle ++ behind)))
unfolding contains_ignore_ascii_case Holds
contains_ignore_ascii_case_iff haystack [] = (λ h. ([], lowered haystack, refl), λ h. refl)
contains_ignore_ascii_case_iff haystack (c ∷ needle) = (
  any_window-Holds haystack (c ∷ needle),
  λ (before, behind, e). any_window-of_split haystack before needle behind c e,
)
