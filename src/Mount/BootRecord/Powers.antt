-- ===== src/Mount/BootRecord/Powers.antt =====
-- The numbers that `(x & (x - 1)) == 0` accepts.
use Prim.Native.Nat.{digits, bit_and, bit_and-bitwise, min}
use libusbhsfs.Base.{
  ℕ, zero, suc, ◌-◌, ◌*◌, ◌/◌, ◌%◌, ◌^◌, ◌≤◌, ◌≡◌, refl, sym, ap, ◌∙◌, subst, ◌⊎◌, inl, inr, true,
  ◌==◌, arith, Bool-cases,
}
use libusbhsfs.Mount.BootRecord.{is_power_of_two}

-- `x & y` by its binary digits, at most `n` of them.
abbrev both : ℕ → ℕ → ℕ → ℕ
both n x y = digits (λ b. zero) min n x y

both-same : (n x : ℕ) → x ≤ n → both n x x ≡ x
both-same zero zero h = refl
both-same (suc n) zero h = refl
both-same zero (suc x) h = absurd (omega arith)
both-same (suc n) (suc x) h = omega (arith, both-same n (suc x / 2) (omega arith))

abbrev pub IsPower : ℕ → Type 0
IsPower x = (k : ℕ) × (x ≡ 2 ^ k)

double-IsPower : (y x : ℕ) → IsPower y → x ≡ y * 2 → IsPower x
double-IsPower y x (k, e) twice = (suc k, grind (arith, e, twice))

-- The halves of a number and of the one before it.
halves : (a : ℕ) → ((a % 2 ≡ 0) × (suc a / 2 ≡ a / 2)) ⊎ ((a % 2 ≡ 1) × (suc a / 2 ≡ suc (a / 2)))
halves a = elim (Bool-cases (a % 2 == 0)) [
  | inl e ↦ inl (ground arith, ground arith)
  | inr e ↦ inr (ground arith, ground arith)
]

-- A number without a common digit with the number before it is a power of two, and the other way
-- round.
both-IsPower : (n a : ℕ) → suc a ≤ n → both n (suc a) a ≡ 0 → IsPower (suc a)
both-IsPower zero a h e = absurd (omega arith)
both-IsPower (suc n) a h e = elim (halves a) [
  | inl (even, half) ↦
      let same : both n (suc a / 2) (a / 2) ≡ a / 2 =
        ap (λ y. both n y (a / 2)) half ∙ both-same n (a / 2) (omega arith) in
      (0, omega (arith, e, same, even))
  | inr (odd, half) ↦
      let rest : both n (suc a / 2) (a / 2) ≡ 0 = omega (arith, e) in
      let rest' : both n (suc (a / 2)) (a / 2) ≡ 0 = subst (λ y. both n y (a / 2) ≡ 0) half rest in
      double-IsPower (suc (a / 2)) (suc a) (both-IsPower n (a / 2) (omega (arith, h, odd)) rest')
        (omega (arith, odd))
]

IsPower-both : (n a k : ℕ) → suc a ≤ n → suc a ≡ 2 ^ k → both n (suc a) a ≡ 0
IsPower-both zero a k h e = absurd (omega arith)
IsPower-both (suc n) a zero h e =
    let none_before : a ≡ 0 = omega (arith, e) in
    subst (λ y. both (suc n) (suc y) y ≡ 0) (sym none_before) (one n)
  where
    one : (n : ℕ) → both (suc n) 1 0 ≡ 0
    one zero = refl
    one (suc n) = refl
IsPower-both (suc n) a (suc k) h e =
    let twice : suc a ≡ 2 ^ k * 2 = grind (arith, e) in
    let odd : a % 2 ≡ 1 = omega (arith, twice) in
    let half : suc a / 2 ≡ suc (a / 2) = omega (arith, odd) in
    let power : suc (a / 2) ≡ 2 ^ k = omega (arith, twice, odd) in
    let rest = IsPower-both n (a / 2) k (omega (arith, h, odd)) power in
    let rest' : both n (suc a / 2) (a / 2) ≡ 0 =
      subst (λ y. both n y (a / 2) ≡ 0) (sym half) rest in
    omega (arith, rest', odd)

pub is_power_of_two-IsPower : (x : ℕ) → is_power_of_two x ≡ true → (x ≡ 0) ⊎ IsPower x
is_power_of_two-IsPower zero h = inl refl
is_power_of_two-IsPower (suc a) h =
    let before : suc a - 1 ≡ a = omega arith in
    let zero_bits : bit_and (suc a) a ≡ 0 = ap (bit_and (suc a)) (sym before) ∙ ground arith in
    inr (both-IsPower (suc a) a (omega arith) (sym (bit_and-bitwise (suc a) a) ∙ zero_bits))

pub IsPower-is_power_of_two : (x : ℕ) → (x ≡ 0) ⊎ IsPower x → is_power_of_two x ≡ true
IsPower-is_power_of_two zero h = refl
IsPower-is_power_of_two (suc a) (inl e) = absurd (omega (arith, e))
IsPower-is_power_of_two (suc a) (inr (k, e)) =
    let before : suc a - 1 ≡ a = omega arith in
    let zero_bits : bit_and (suc a) (suc a - 1) ≡ 0 =
      ap (bit_and (suc a)) before
      ∙ bit_and-bitwise (suc a) a
      ∙ IsPower-both (suc a) a k (omega arith) e in
    ground arith
