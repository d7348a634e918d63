-- ===== src/Mount/Volume/Sound.antt =====
-- The invariant of the contexts of a unit and of the device ids.
use libusbhsfs.Base.{
  ℕ, ◌+◌, ◌^◌, ◌<◌, ◌≡◌, sym, subst, ap, Bool, true, false, not, ◌&&◌, List, [], ◌∷◌, ◌++◌, ◌==◌,
  arith, inl, inr, Bool-cases, length, length-append,
}
use libusbhsfs.Bytes.{Buf}
use libusbhsfs.Usb.{Usb}
use libusbhsfs.Scsi.Lun.{LogicalUnitContext}
use libusbhsfs.Mount.Context.{FileSystemContext, is_some, has_fs_object}
use libusbhsfs.Mount.Monad.{MountState, Libs}
use libusbhsfs.Mount.DeviceId.Least.{member, is_distinct, is_distinct-append, member-append}
use libusbhsfs.Mount.Volume.{register_volume}
use libusbhsfs.Mount.Outcome.{Restored, one_if}
use libusbhsfs.Mount.Outcome.Mounted.{object_blocks}
use libusbhsfs.Mount.Volume.Registered.{
  Registered, register_volume-Registered, register_volume-Restored,
}
use libusbhsfs.Mount.Volume.RoundTrip.{available_device_id-IsLeastUnused}

-- A context with a name, a directory, a device and a file system object, whose id is in use.
unfoldable pub is_mounted : List ℕ → FileSystemContext → Bool
is_mounted ids c =
    is_some c.name && is_some c.cwd && is_some c.device && has_fs_object c && member c.device_id ids

unfoldable pub all_mounted : List ℕ → List FileSystemContext → Bool
unfolding is_mounted
all_mounted ids [] = true
all_mounted ids (c ∷ cs) = is_mounted ids c && all_mounted ids cs

-- The blocks of the contexts: each has one of its own, three of its device, and its object's.
unfoldable pub context_blocks : List FileSystemContext → ℕ
context_blocks [] = 0
context_blocks (c ∷ cs) = 4 + object_blocks c + context_blocks cs

-- An array is allocated just when it has entries, the ids are distinct as long as they fit 32 bits,
-- every context of the unit is mounted, and all blocks but `base` others are accounted for.
pub record IsSound {W : Type 0} (base : ℕ) (s : MountState W) : Type 0 where
  pub fs_array : s.has_fs_ctx ≡ not (length s.fs_ctx == 0)
  pub ids_array : s.has_device_ids ≡ not (length s.device_ids == 0)
  pub distinct : length s.device_ids < 2 ^ 32 → is_distinct s.device_ids ≡ true
  pub mounted : all_mounted s.device_ids s.fs_ctx ≡ true
  pub ledger :
      s.drive.live ≡ base + context_blocks s.fs_ctx + one_if s.has_fs_ctx + one_if s.has_device_ids

member-grow : (ids : List ℕ) (j k : ℕ) → member j ids ≡ true → member j (ids ++ (k ∷ [])) ≡ true
unfolding member
member-grow [] j k h = absurd (ground arith)
member-grow (x ∷ xs) j k h = elim (Bool-cases (x == j)) [
  | inl e ↦ ground arith
  | inr e ↦
      let later : member j xs ≡ true = ground arith in
      let rest = member-grow xs j k later in ground arith
]

all_mounted-append :
    (ids : List ℕ) (cs : List FileSystemContext) (c : FileSystemContext)
    → all_mounted ids cs ≡ true
    → is_mounted (ids ++ (c.device_id ∷ [])) c ≡ true
    → all_mounted (ids ++ (c.device_id ∷ [])) (cs ++ (c ∷ [])) ≡ true
unfolding all_mounted
all_mounted-append ids [] c h here = ground arith
all_mounted-append ids (x ∷ cs) c h here =
    let tail : all_mounted ids cs ≡ true = ground arith in
    let rest = all_mounted-append ids cs c tail here in
    let used : member x.device_id ids ≡ true = ground arith in
    let kept = member-grow ids x.device_id c.device_id used in ground arith

context_blocks-append :
    (cs : List FileSystemContext) (c : FileSystemContext)
    → context_blocks (cs ++ (c ∷ [])) ≡ context_blocks cs + 4 + object_blocks c
unfolding context_blocks
context_blocks-append [] c = omega arith
context_blocks-append (x ∷ cs) c = omega (arith, context_blocks-append cs c)

module _ {W : Type 0} (base : ℕ) (s s' : MountState W) (sound : IsSound base s) where
  pub Restored-IsSound : Restored s s' → IsSound base s'
  Restored-IsSound r =
      let state = r.state in
      let live = r.live in
      let fs_array = sound.fs_array in
      let ids_array = sound.ids_array in
      let mounted = sound.mounted in
      let ledger = sound.ledger in
      record {
        fs_array = ground arith;
        ids_array = ground arith;
        distinct =
            subst (λ ids. length ids < 2 ^ 32 → is_distinct ids ≡ true)
              (sym (ap (λ t. t.device_ids) state)) sound.distinct;
        mounted = ground arith;
        ledger = ground arith;
      }

  Registered-distinct :
      (k : ℕ)
      → (length s.device_ids < 2 ^ 32 → member k s.device_ids ≡ false)
      → length (s.device_ids ++ (k ∷ [])) < 2 ^ 32
      → is_distinct (s.device_ids ++ (k ∷ [])) ≡ true
  Registered-distinct k unused small =
      let small' : length s.device_ids < 2 ^ 32 =
        omega (arith, length-append s.device_ids (k ∷ []), small) in
      is_distinct-append s.device_ids k (sound.distinct small') (unused small')

  pub Registered-IsSound :
      (libs : Libs W) (fs_type : ℕ) → Registered libs fs_type s s' → IsSound base s'
  unfolding is_mounted
  Registered-IsSound libs fs_type r =
      let c = r.context in
      let state = r.state in
      let live = r.live in
      let name = r.name in
      let cwd = r.cwd in
      let device = r.device in
      let interface = r.interface in
      let object = r.object in
      let used = member-append s.device_ids c.device_id in
      let here : is_mounted (s.device_ids ++ (c.device_id ∷ [])) c ≡ true = ground arith in
      let all = all_mounted-append s.device_ids s.fs_ctx c sound.mounted here in
      let blocks = context_blocks-append s.fs_ctx c in
      let ledger = sound.ledger in
      let size = length-append s.device_ids (c.device_id ∷ []) in
      let fs_size = length-append s.fs_ctx (c ∷ []) in
      record {
        fs_array = ground arith;
        ids_array = ground arith;
        distinct =
            subst (λ ids. length ids < 2 ^ 32 → is_distinct ids ≡ true)
              (sym (ap (λ t. t.device_ids) state))
              (Registered-distinct c.device_id (λ small.
                subst (λ i. member i s.device_ids ≡ false) (sym r.device_id)
                  (available_device_id-IsLeastUnused s.has_device_ids s.device_ids sound.ids_array
                    small).unused));
        mounted = ground arith;
        ledger = ground arith;
      }

-- The registration of a volume keeps the invariant, whether it succeeds or fails, and at whatever
-- step it fails.
pub register_volume-IsSound :
    {W : Type 0} (usb : Usb W) (libs : Libs W) (l : LogicalUnitContext) (block : Buf)
    (addr count fs_type base : ℕ) (s : MountState W)
    → IsSound base s
    → IsSound base (register_volume usb libs l block addr count fs_type s).1
register_volume-IsSound usb libs l block addr count fs_type base s sound =
    elim (Bool-cases (register_volume usb libs l block addr count fs_type s).0) [
      | inl ok ↦
          Registered-IsSound base s _ sound libs fs_type
            (register_volume-Registered usb libs l block addr count fs_type s ok)
      | inr failed ↦
          Restored-IsSound base s _ sound
            (register_volume-Restored usb libs l block addr count fs_type s sound.fs_array failed).0
    ]
