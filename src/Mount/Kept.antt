-- ===== src/Mount/Kept.antt =====
-- Properties of the state that the parsing of partition tables keeps.
pub mod Parts
pub mod Sound
pub mod Chain
pub mod Returns
pub mod Whole
use libusbhsfs.Base.{◌≡◌, refl, Bool, true, false, Option, none, some, if◌then◌else◌}
use libusbhsfs.Usb.{State}
use libusbhsfs.Cmd.{Cmd}
use libusbhsfs.Mount.Monad.{MountState, Mnt}
use libusbhsfs.Mount.Probe.{Probe, ◌>>=◌, pure, mnt, cmd, out_of_fuel}

-- `P` holds of the state behind a call that returned, and `N` if the fuel ran out: `⊥` says that it
-- did not, `Unit` that it may have.
abbrev pub Ends :
    {W A : Type 0} → Type 0 → (MountState W → Type 0) → Option (A × MountState W) → Type 0
Ends N P none = N
Ends N P (some r) = P r.1

-- A call from a state where `P` holds leads to one where `P` holds.
pub record Keeps {W A : Type 0} (N : Type 0) (P : MountState W → Type 0) (m : Probe W A)
    : Type 0 where
  pub ends : (s : MountState W) → P s → Ends N P (m s)

module _ {W : Type 0} (N : Type 0) (P : MountState W → Type 0) where
  Ends-both :
      {A B : Type 0} (o : Option (A × MountState W)) (f : A → Probe W B) (s : MountState W)
      → Ends N P o
      → ((a : A) → Keeps N P (f a))
      → Ends N P (((λ _. o) >>= f) s)
  Ends-both none f s h k = h
  Ends-both (some r) f s h k = (k r.0).ends r.1 h

  pub Keeps-bind :
      {A B : Type 0} (m : Probe W A) (f : A → Probe W B)
      → Keeps N P m
      → ((a : A) → Keeps N P (f a))
      → Keeps N P (m >>= f)
  Keeps-bind m f h k = record { ends = λ s p. Ends-both (m s) f s (h.ends s p) k }

  pub Keeps-if :
      {A : Type 0} (b : Bool) (m n : Probe W A)
      → Keeps N P m
      → Keeps N P n
      → Keeps N P (if b then m else n)
  Keeps-if true m n h k = h
  Keeps-if false m n h k = k

  -- The first call is only made if the test holds.
  pub Keeps-if_true :
      {A : Type 0} (b : Bool) (m n : Probe W A)
      → (b ≡ true → Keeps N P m)
      → Keeps N P n
      → Keeps N P (if b then m else n)
  Keeps-if_true true m n h k = h refl
  Keeps-if_true false m n h k = k

  pub Keeps-pure : {A : Type 0} (a : A) → Keeps N P (pure a)
  Keeps-pure a = record { ends = λ s p. p }

  pub Keeps-mnt :
      {A : Type 0} (m : Mnt W A) → ((s : MountState W) → P s → P (m s).1) → Keeps N P (mnt m)
  Keeps-mnt m h = record { ends = h }

  -- A command that keeps what `P` reads of the drive.
  abbrev pub Leads : {A : Type 0} → MountState W → Option (A × State W) → Type 0
  Leads s none = N
  Leads s (some r) = P (record s { drive = r.1 })

  Ends-cmd :
      {A : Type 0} (s : MountState W) (o : Option (A × State W))
      → Leads s o
      → Ends N P (elim o as (λ _. Option (A × MountState W)) [
        | none ↦ none
        | some (a, d) ↦ some (a, record s { drive = d })
      ])
  Ends-cmd s none h = h
  Ends-cmd s (some r) h = h

  pub Keeps-cmd :
      {A : Type 0} (m : Cmd W A)
      → ((s : MountState W) → P s → Leads s (m s.drive))
      → Keeps N P (cmd m)
  Keeps-cmd m h = record { ends = λ s p. Ends-cmd s (m s.drive) (h s p) }
