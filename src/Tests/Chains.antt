-- ===== src/Tests/Chains.antt =====
-- A chain of extended boot records that is walked to its end.
use libusbhsfs.Base.{
  ℕ, zero, suc, ◌+◌, ◌*◌, ◌%◌, ◌^◌, ◌<◌, ◌≡◌, refl, sym, ap, subst, ◌∙◌, Bool, true, false, inl,
  inr, Bool-cases, some, ◌==◌, arith, if◌then◌else◌,
}
use libusbhsfs.Bytes.{Buf, memcpy}
use libusbhsfs.Cmd.{Cmd}
use libusbhsfs.Mount.Monad.{MountState}
use libusbhsfs.Mount.Table.{is_ebr_type, entry_type, entry_lba}
use libusbhsfs.Mount.Start.{mount_block_0}
use libusbhsfs.Mount.Kept.Returns.{IsBase, IsRanked, mount_block_0-Returns}
use libusbhsfs.Tests.Device.{Script, scripted, one_read}
use libusbhsfs.Tests.Libraries.{libraries, no_volumes, started_unit}

-- A partition table with an extended partition at block 10, and a chain of two records: the one at
-- block 10 names the one 5 blocks behind it, which names none.
abbrev table_block : Buf
table_block i =
    if i == 510
    then 0x55
    else if i == 511
    then 0xaa
    else if i == 0x1c2
    then 5
    else if i == 0x1c6
    then 10
    else 0

abbrev first_record : Buf
first_record i = if i == 510 then 0x55 else if i == 511 then 0xaa else if i == 0x1d6 then 5 else 0

abbrev last_record : Buf
last_record i = if i == 510 then 0x55 else if i == 511 then 0xaa else 0

abbrev chain_block : ℕ → Buf
chain_block addr =
    if addr == 0 then table_block else if addr == 10 then first_record else last_record

abbrev chained : Buf → ℕ → ℕ → Cmd Script (Bool × Buf)
chained b addr count = λ s. some ((true, chain_block addr), s)

-- The table names no chain but the one from block 10.
named_lba :
    (i : ℕ)
    → i < 4
    → is_ebr_type (entry_type (memcpy (λ _. 0) 0 table_block 512) (0x1be + i * 16)) ≡ true
    → entry_lba (memcpy (λ _. 0) 0 table_block 512) (0x1be + i * 16) ≡ 10
unfolding memcpy
named_lba zero small ebr = refl
named_lba (suc zero) small ebr = absurd (ground (arith, ebr))
named_lba (suc (suc zero)) small ebr = absurd (ground (arith, ebr))
named_lba (suc (suc (suc zero))) small ebr = absurd (ground (arith, ebr))
named_lba (suc (suc (suc (suc i)))) small ebr = absurd (omega (arith, small))

chained-IsBase : (lba : ℕ) → IsBase chained started_unit lba → lba ≡ 10
chained-IsBase lba base =
    let same : ((true, table_block), base.state) ≡ base.outcome = cc (base.was_read) in
    let block : base.outcome.0.1 ≡ table_block = sym (ap (λ o. o.0.1) same) in
    let ebr =
      subst
        (λ b. is_ebr_type (entry_type (memcpy (λ _. 0) 0 b 512) (0x1be + base.entry * 16)) ≡ true)
        block base.is_ebr in
    let at =
      subst (λ b. entry_lba (memcpy (λ _. 0) 0 b 512) (0x1be + base.entry * 16) ≡ lba) block
        base.lba_is in
    sym at ∙ named_lba base.entry base.is_entry ebr

leads_to_5_of :
    (addr after : ℕ)
    → entry_lba (chain_block addr) 0x1ce ≡ after
    → (after == 0) ≡ false
    → (addr ≡ 10) × (after ≡ 5)
leads_to_5_of addr after to more = elim (Bool-cases (addr == 0)) [
  | inl e ↦ absurd (ground (arith, e, to, more))
  | inr e ↦ elim (Bool-cases (addr == 10)) [
    | inl f ↦ (ground (arith, f), ground (arith, e, f, to, more))
    | inr f ↦ absurd (ground (arith, e, f, to, more))
  ]
]

abbrev chain_rank : ℕ → ℕ → ℕ
chain_rank lba next = if next == 5 then 0 else 1

leads_to_5 :
    (lba next after : ℕ)
    → entry_lba (chain_block ((10 + next) % 2 ^ 64)) 0x1ce ≡ after
    → (after == 0) ≡ false
    → chain_rank lba after < chain_rank lba next
leads_to_5 lba next after to more =
    let (here, five) = leads_to_5_of ((10 + next) % 2 ^ 64) after to more in
    ground (arith, here, five)

chained-IsRanked : IsRanked chained started_unit chain_rank
chained-IsRanked lba next base here b s after (ok, sig, to, more) =
    let at_10 = chained-IsBase lba base in
    let from_10 : (lba + next) % 2 ^ 64 ≡ (10 + next) % 2 ^ 64 =
      ap (λ a. (a + next) % 2 ^ 64) at_10 in
    leads_to_5 lba next after (subst (λ a. entry_lba (chain_block a) 0x1ce ≡ after) from_10 to) more

mount_block_0-Returns_example :
    (r : Bool × MountState Script) × (mount_block_0
        (scripted one_read)
        libraries
        chained
        started_unit
        2
        (λ _. 0)
        no_volumes
      ≡ some r)
mount_block_0-Returns_example =
    mount_block_0-Returns (scripted one_read) libraries chained started_unit chain_rank 2 (λ _. 0)
      no_volumes (λ b addr count s. (((true, chain_block addr), s), refl)) chained-IsRanked
      (λ lba base. omega arith)
