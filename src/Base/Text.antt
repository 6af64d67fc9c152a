-- ===== src/Base/Text.antt =====
-- Text: a Rust `str` is the list of its UTF-8 bytes. Equality of texts and of signed numbers.
use win_blaze.Base.{
  ℕ, ◌≡◌, refl, ◌↔◌, Bool, true, false, ◌&&◌, Option, none, some, List, [], ◌∷◌, arith, ◌==◌, All,
}
use win_blaze.Base.Int.{ℤ, pos, negsuc}
use win_blaze.Base.Bytes.{IsByte, is_utf8}

abbrev pub Text : Type 0
Text = List ℕ

-- What the type `str` promises of its bytes.
pub record IsText (t : Text) : Type 0 where
  pub bytes : All IsByte t
  pub utf8 : is_utf8 t ≡ true

unfoldable pub text_eq : Text → Text → Bool
text_eq [] [] = true
text_eq [] (b ∷ bs) = false
text_eq (a ∷ xs) [] = false
text_eq (a ∷ xs) (b ∷ bs) = a == b && text_eq xs bs

pub text_eq→eq : (s t : Text) → text_eq s t ≡ true → s ≡ t
unfolding text_eq
text_eq→eq [] [] h = refl
text_eq→eq [] (b ∷ bs) h = ground arith
text_eq→eq (a ∷ xs) [] h = ground arith
text_eq→eq (a ∷ xs) (b ∷ bs) h = ground (arith, text_eq→eq xs bs)

pub text_eq_refl : (t : Text) → text_eq t t ≡ true
unfolding text_eq
text_eq_refl [] = refl
text_eq_refl (a ∷ xs) = ground (arith, text_eq_refl xs)

unfoldable pub option_eq {ℓ} : {A : Type ℓ} → (A → A → Bool) → Option A → Option A → Bool
option_eq f none none = true
option_eq f none (some b) = false
option_eq f (some a) none = false
option_eq f (some a) (some b) = f a b

unfoldable pub i64_eq : ℤ → ℤ → Bool
i64_eq (pos m) (pos n) = m == n
i64_eq (negsuc m) (negsuc n) = m == n
i64_eq _ _ = false

pub i64_eq_iff : (a b : ℤ) → (i64_eq a b ≡ true) ↔ (a ≡ b)
unfolding i64_eq
i64_eq_iff (pos m) (pos n) = ground arith
i64_eq_iff (pos m) (negsuc n) = ground arith
i64_eq_iff (negsuc m) (pos n) = ground arith
i64_eq_iff (negsuc m) (negsuc n) = ground arith

pub option_i64_eq_iff : (a b : Option ℤ) → (option_eq i64_eq a b ≡ true) ↔ (a ≡ b)
unfolding option_eq
option_i64_eq_iff none none = ground arith
option_i64_eq_iff none (some b) = ground arith
option_i64_eq_iff (some a) none = ground arith
option_i64_eq_iff (some a) (some b) = ground (arith, i64_eq_iff a b)
