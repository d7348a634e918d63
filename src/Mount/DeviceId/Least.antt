-- ===== src/Mount/DeviceId/Least.antt =====
-- Lists of device ids: membership, the removal of one, and the numbers that a list can hold.
use libusbhsfs.Base.{
  ℕ, zero, suc, ◌≤◌, ◌<◌, ◌≡◌, refl, inl, inr, Bool, true, false, ◌||◌, ◌&&◌, not, List, [], ◌∷◌,
  ◌++◌, ◌==◌, if◌then◌else◌, length, get_or, arith, Bool-cases,
}

unfoldable pub member : ℕ → List ℕ → Bool
member k [] = false
member k (x ∷ xs) = x == k || member k xs

-- The list without the first entry that is `k`.
unfoldable pub remove_first : ℕ → List ℕ → List ℕ
remove_first k [] = []
remove_first k (x ∷ xs) = let rest = remove_first k xs in if x == k then xs else x ∷ rest

-- No number occurs twice.
unfoldable pub is_distinct : List ℕ → Bool
unfolding member
is_distinct [] = true
is_distinct (x ∷ xs) = not (member x xs) && is_distinct xs

length-remove_first :
    (k : ℕ) (xs : List ℕ) → member k xs ≡ true → length xs ≡ suc (length (remove_first k xs))
unfolding member remove_first
length-remove_first k [] h = absurd (ground arith)
length-remove_first k (x ∷ xs) h = elim (Bool-cases (x == k)) [
  | inl e ↦ ground arith
  | inr e ↦
      let later : member k xs ≡ true = ground arith in
      let rest = length-remove_first k xs later in ground arith
]

member-remove_first :
    (j k : ℕ) (xs : List ℕ)
    → member j xs ≡ true
    → (j == k) ≡ false
    → member j (remove_first k xs) ≡ true
unfolding member remove_first
member-remove_first j k [] h differs = absurd (ground arith)
member-remove_first j k (x ∷ xs) h differs = elim (Bool-cases (x == k)) [
  | inl e ↦ ground arith
  | inr e ↦ elim (Bool-cases (x == j)) [
    | inl f ↦ ground arith
    | inr f ↦
        let later : member j xs ≡ true = ground arith in
        let rest = member-remove_first j k xs later differs in ground arith
  ]
]

-- A list that holds all numbers below `r` has at least `r` entries.
pub holds_all-le : (r : ℕ) (xs : List ℕ) → ((k : ℕ) → k < r → member k xs ≡ true) → r ≤ length xs
holds_all-le zero xs all = omega arith
holds_all-le (suc r) xs all =
    let rest =
      holds_all-le r (remove_first r xs)
        (λ k below. member-remove_first k r xs (all k (omega arith)) (ground arith)) in
    omega (arith, rest, length-remove_first r xs (all r (omega arith)))

-- What is at an index is in the list.
pub member-get_or : (xs : List ℕ) (i d : ℕ) → i < length xs → member (get_or xs i d) xs ≡ true
unfolding member
member-get_or [] i d below = absurd (omega arith)
member-get_or (x ∷ xs) zero d below = ground arith
member-get_or (x ∷ xs) (suc i) d below =
    let rest = member-get_or xs i d (omega arith) in ground arith

-- A number that no index gives is not in the list.
pub member-absent :
    (xs : List ℕ) (r d : ℕ)
    → ((j : ℕ) → j < length xs → (r == get_or xs j d) ≡ false)
    → member r xs ≡ false
unfolding member
member-absent [] r d all = refl
member-absent (x ∷ xs) r d all =
    let rest = member-absent xs r d (λ j below. all (suc j) (omega arith)) in
    let here : (r == x) ≡ false = all 0 (omega arith) in ground arith

-- An id that is appended is in the list, and its removal gives the list back if it was new.
pub member-append : (xs : List ℕ) (k : ℕ) → member k (xs ++ (k ∷ [])) ≡ true
unfolding member
member-append [] k = ground arith
member-append (x ∷ xs) k = let rest = member-append xs k in ground arith

pub remove_first-append :
    (xs : List ℕ) (k : ℕ) → member k xs ≡ false → remove_first k (xs ++ (k ∷ [])) ≡ xs
unfolding member remove_first
remove_first-append [] k new = ground arith
remove_first-append (x ∷ xs) k new =
    let absent : member k xs ≡ false = ground arith in
    let rest = remove_first-append xs k absent in ground arith

member-append-other :
    (xs : List ℕ) (j k : ℕ)
    → member j xs ≡ false
    → (k == j) ≡ false
    → member j (xs ++ (k ∷ [])) ≡ false
unfolding member
member-append-other [] j k absent differs = ground arith
member-append-other (x ∷ xs) j k absent differs =
    let absent' : member j xs ≡ false = ground arith in
    let rest = member-append-other xs j k absent' differs in ground arith

-- Distinct ids stay distinct when a new one is appended.
pub is_distinct-append :
    (xs : List ℕ) (k : ℕ)
    → is_distinct xs ≡ true
    → member k xs ≡ false
    → is_distinct (xs ++ (k ∷ [])) ≡ true
unfolding is_distinct member
is_distinct-append [] k distinct new = refl
is_distinct-append (x ∷ xs) k distinct new =
    let new' : member k xs ≡ false = ground arith in
    let distinct' : is_distinct xs ≡ true = ground arith in
    let absent : member x xs ≡ false = ground arith in
    let differs : (k == x) ≡ false = ground arith in
    let rest = is_distinct-append xs k distinct' new' in
    let kept = member-append-other xs x k absent differs in ground arith
