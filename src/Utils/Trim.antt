-- ===== src/Utils/Trim.antt =====
-- What usbHsFsUtilsTrimString() takes off, and what it leaves.
use mathlib.Core.List.{append_assoc}
use libusbhsfs.Base.{
  ℕ, zero, suc, ◌≤◌, ◌≡◌, refl, ap, inl, inr, Bool, true, not, ◌&&◌, List, [], ◌∷◌, ◌++◌, arith,
  if◌then◌else◌, Bool-cases, length, take, get_or,
}
use libusbhsfs.Utils.{is_space, kept_length, skip_spaces, trim_string}

abbrev pub all_space : List ℕ → Bool
all_space [] = true
all_space (x ∷ xs) = is_space x && all_space xs

abbrev pub starts_clean : List ℕ → Bool
starts_clean [] = true
starts_clean (x ∷ xs) = not (is_space x)

abbrev pub ends_clean : List ℕ → Bool
ends_clean [] = true
ends_clean (x ∷ []) = not (is_space x)
ends_clean (x ∷ (y ∷ ys)) = ends_clean (y ∷ ys)

abbrev pub drop : ℕ → List ℕ → List ℕ
drop zero xs = xs
drop (suc n) [] = []
drop (suc n) (x ∷ xs) = drop n xs

-- Spaces around a text that neither begins nor ends with one.
pub record IsTrimOf (str t : List ℕ) : Type 0 where
  pub before : List ℕ
  pub after : List ℕ
  pub splits : str ≡ before ++ (t ++ after)
  pub before_space : all_space before ≡ true
  pub after_space : all_space after ≡ true
  pub starts : starts_clean t ≡ true
  pub ends : ends_clean t ≡ true

take-append-drop : (n : ℕ) (xs : List ℕ) → take n xs ++ drop n xs ≡ xs
take-append-drop zero xs = refl
take-append-drop (suc n) [] = refl
take-append-drop (suc n) (x ∷ xs) = ap (◌∷◌ x) (take-append-drop n xs)

-- What one more character in front makes of the number of characters that stay.
abbrev grow : Bool → ℕ → ℕ
grow b zero = if b then 0 else 1
grow b (suc k) = suc (suc k)

kept_length-cons :
    (x : ℕ) (xs : List ℕ) (n : ℕ)
    → kept_length (x ∷ xs) (suc n) ≡ grow (is_space x) (kept_length xs n)
unfolding kept_length
kept_length-cons x xs zero = ground arith
kept_length-cons x xs (suc n) = elim (Bool-cases (is_space (get_or xs n 0))) [
  | inl e ↦ rw (e, kept_length) (kept_length-cons x xs n)
  | inr e ↦ rw (e, kept_length) refl
]

abbrev kept : List ℕ → ℕ
kept xs = kept_length xs (length xs)

-- What holds of a number of characters to keep.
abbrev Keeps : List ℕ → ℕ → Type 0
Keeps xs k = (ends_clean (take k xs) ≡ true) × (all_space (drop k xs) ≡ true) × (k ≤ length xs)

Keeps-grow : (x : ℕ) (xs : List ℕ) (k : ℕ) → Keeps xs k → Keeps (x ∷ xs) (grow (is_space x) k)
Keeps-grow x xs zero h = elim (Bool-cases (is_space x)) [
  | inl e ↦ rw e (refl, rw e h.1, omega arith)
  | inr e ↦ rw e (rw e refl, h.1, omega arith)
]
Keeps-grow x [] (suc k) h = absurd (omega arith)
Keeps-grow x (y ∷ ys) (suc k) h = (h.0, h.1, omega arith)

kept-Keeps : (xs : List ℕ) → Keeps xs (kept xs)
unfolding kept_length
kept-Keeps [] = (refl, refl, omega arith)
kept-Keeps (x ∷ xs) =
    rw (kept_length-cons x xs (length xs)) (Keeps-grow x xs (kept xs) (kept-Keeps xs))

-- The spaces that the second loop passes.
abbrev spaces_before : List ℕ → List ℕ
spaces_before [] = []
spaces_before (x ∷ xs) = if is_space x then x ∷ spaces_before xs else []

skip_spaces-splits : (xs : List ℕ) → xs ≡ spaces_before xs ++ skip_spaces xs
unfolding skip_spaces
skip_spaces-splits [] = refl
skip_spaces-splits (x ∷ xs) = ground (arith, skip_spaces-splits xs)

spaces_before-all_space : (xs : List ℕ) → all_space (spaces_before xs) ≡ true
spaces_before-all_space [] = refl
spaces_before-all_space (x ∷ xs) = ground (arith, spaces_before-all_space xs)

skip_spaces-starts_clean : (xs : List ℕ) → starts_clean (skip_spaces xs) ≡ true
unfolding skip_spaces
skip_spaces-starts_clean [] = refl
skip_spaces-starts_clean (x ∷ xs) = ground (arith, skip_spaces-starts_clean xs)

ends_clean-tail : (x : ℕ) (xs : List ℕ) → ends_clean (x ∷ xs) ≡ true → ends_clean xs ≡ true
ends_clean-tail x [] h = refl
ends_clean-tail x (y ∷ ys) h = h

skip_spaces-ends_clean : (xs : List ℕ) → ends_clean xs ≡ true → ends_clean (skip_spaces xs) ≡ true
unfolding skip_spaces
skip_spaces-ends_clean [] h = refl
skip_spaces-ends_clean (x ∷ xs) h =
    ground (arith, skip_spaces-ends_clean xs (ends_clean-tail x xs h))

-- Trimming takes spaces off both ends and leaves a text that has none there; nothing else is
-- taken off.
pub trim_string-IsTrimOf : (str : List ℕ) → IsTrimOf str (trim_string str)
unfolding trim_string
trim_string-IsTrimOf str = record {
  before = spaces_before (take (kept str) str);
  after = drop (kept str) str;
  splits = cc (
    take-append-drop (kept str) str,
    skip_spaces-splits (take (kept str) str),
    append_assoc (spaces_before (take (kept str) str)) (skip_spaces (take (kept str) str))
        (drop (kept str) str),
  );
  before_space = spaces_before-all_space (take (kept str) str);
  after_space = (kept-Keeps str).1;
  starts = skip_spaces-starts_clean (take (kept str) str);
  ends = skip_spaces-ends_clean (take (kept str) str) (kept-Keeps str).0;
}
