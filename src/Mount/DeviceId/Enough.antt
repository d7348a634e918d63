-- ===== src/Mount/DeviceId/Enough.antt =====
-- The search for a device id: its rounds are enough, and what it finds.
use libusbhsfs.Base.{
  ℕ, zero, suc, ◌+◌, ◌-◌, ◌*◌, ◌%◌, ◌^◌, ◌≤◌, ◌<◌, ◌≡◌, refl, ap, subst, ◌∙◌, inl, inr, true, false,
  List, some, ◌==◌, leb, length, get_or, arith, Bool-cases,
}
use libusbhsfs.Mount.DeviceId.{available_loop, loop_fuel, find_available}
use libusbhsfs.Mount.DeviceId.Least.{member, holds_all-le, member-get_or, member-absent}

-- No entry is `r`, and every smaller number is an entry.
pub record IsLeastUnused (ids : List ℕ) (r : ℕ) : Type 0 where
  pub unused : member r ids ≡ false
  pub least : (k : ℕ) → k < r → member k ids ≡ true

-- What the loop knows in a round, with `rest` candidates to go.
record Searching (ids : List ℕ) (i ret rest : ℕ) : Type 0 where
  inside : i ≤ length ids
  budget : ret + rest ≡ length ids
  passed : (j : ℕ) → j < i → (ret == get_or ids j 0) ≡ false
  smaller : (k : ℕ) → k < ret → member k ids ≡ true

-- All numbers up to the candidate are taken once the candidate is.
smaller_next :
    (ids : List ℕ) (ret : ℕ)
    → member ret ids ≡ true
    → ((k : ℕ) → k < ret → member k ids ≡ true)
    → (k : ℕ) → k < ret + 1
    → member k ids ≡ true
smaller_next ids ret here smaller k below = elim (Bool-cases (k == ret)) [
  | inl e ↦ let same : ret ≡ k = ground arith in subst (λ m. member m ids ≡ true) same here
  | inr e ↦ smaller k (ground arith)
]

hit_step :
    (ids : List ℕ) (i ret rest : ℕ)
    → Searching ids i ret rest
    → i < length ids
    → (ret == get_or ids i 0) ≡ true
    → (rest' : ℕ) × (rest ≡ suc rest') × Searching ids 0 (ret + 1) rest'
hit_step ids i ret rest s below hit =
    let same : get_or ids i 0 ≡ ret = ground arith in
    let here : member ret ids ≡ true =
      subst (λ m. member m ids ≡ true) same (member-get_or ids i 0 below) in
    let all = smaller_next ids ret here s.smaller in
    let room : ret + 1 ≤ length ids = holds_all-le (ret + 1) ids all in
    (
      rest - 1,
      omega (arith, s.budget),
      record {
        inside = omega arith;
        budget = omega (arith, s.budget);
        passed = λ j none_below. absurd (omega arith);
        smaller = all;
      },
    )

miss_step :
    (ids : List ℕ) (i ret rest : ℕ)
    → Searching ids i ret rest
    → i < length ids
    → (ret == get_or ids i 0) ≡ false
    → Searching ids (suc i) ret rest
miss_step ids i ret rest s below miss = record {
  inside = below;
  budget = s.budget;
  passed = λ j earlier. elim (Bool-cases (j == i)) [
    | inl e ↦
        let same : i ≡ j = ground arith in subst (λ m. (ret == get_or ids m 0) ≡ false) same miss
    | inr e ↦ s.passed j (ground arith)
  ];
  smaller = s.smaller;
}

hit_budget :
    (ids : List ℕ) (i rest rest' fuel : ℕ)
    → rest ≡ suc rest'
    → i < length ids
    → rest * suc (length ids) + (suc (length ids) - i) ≤ suc fuel
    → rest' * suc (length ids) + (suc (length ids) - 0) ≤ fuel
hit_budget ids i rest rest' fuel more below enough =
    let split : rest * suc (length ids) ≡ rest' * suc (length ids) + suc (length ids) =
      ap (λ m. m * suc (length ids)) more ∙ omega arith in
    omega (arith, split)

abbrev Finds : ℕ → List ℕ → ℕ → ℕ → Type 0
Finds fuel ids i ret = (r : ℕ) × (available_loop fuel ids i ret ≡ some r) × IsLeastUnused ids r

loop-Finds :
    (fuel : ℕ) (ids : List ℕ) (i ret rest : ℕ)
    → length ids < 2 ^ 32
    → Searching ids i ret rest
    → rest * suc (length ids) + (suc (length ids) - i) ≤ fuel
    → Finds fuel ids i ret
unfolding available_loop
loop-Finds zero ids i ret rest small s enough = absurd (omega (arith, s.inside))
loop-Finds (suc fuel) ids i ret rest small s enough = elim (Bool-cases (leb (length ids) i)) [
  | inl e ↦ (
    ret,
    rw e refl,
    record {
      unused = member-absent ids ret 0 (λ j below. s.passed j (ground arith));
      least = s.smaller;
    },
  )
  | inr e ↦ elim (Bool-cases (ret == get_or ids i 0)) [
    | inl hit ↦
        let (rest', more, s') = hit_step ids i ret rest s (ground arith) hit in
        let (r, found, least) =
          loop-Finds fuel ids 0 (ret + 1) rest' small s'
            (hit_budget ids i rest rest' fuel more (ground arith) enough) in
        let wraps : (ret + 1) % 2 ^ 32 ≡ ret + 1 = omega (arith, s.budget, more, small) in
        (r, rw (e, hit, wraps) found, least)
    | inr miss ↦
        let (r, found, least) =
          loop-Finds fuel ids (suc i) ret rest small
            (miss_step ids i ret rest s (ground arith) miss) (ground arith) in
        (r, rw (e, miss) found, least)
  ]
]

-- The search ends, after at most (n + 1) * (n + 1) + 1 rounds for n ids, and finds the least number
-- that is no id in use, as long as the number of ids fits 32 bits.
pub find_available-IsLeastUnused :
    (ids : List ℕ)
    → length ids < 2 ^ 32
    → (r : ℕ) × (find_available true ids ≡ some r) × IsLeastUnused ids r
unfolding find_available
find_available-IsLeastUnused ids small = elim (Bool-cases (length ids == 0)) [
  | inl e ↦ (
    0,
    rw e refl,
    record {
      unused = member-absent ids 0 0 (λ j below. absurd (ground arith));
      least = λ k below. absurd (omega arith);
    },
  )
  | inr e ↦
      let (r, found, least) =
        loop-Finds (loop_fuel ids) ids 0 0 (length ids) small
          (record {
            inside = omega arith;
            budget = omega arith;
            passed = λ j below. absurd (omega arith);
            smaller = λ k below. absurd (omega arith);
          })
          (grind arith) in
      (r, rw e found, least)
]
