-- ===== src/Mount/Probe.antt =====
-- source/usbhsfs_mount.c: the monad of calls that read the logical unit: `none` means that the fuel
-- of a command or of a loop ran out.
use libusbhsfs.Base.{Option, none, some}
use libusbhsfs.Cmd.{Cmd}
use libusbhsfs.Mount.Monad.{MountState, Mnt}

abbrev pub Probe : Type 0 → Type 0 → Type 0
Probe W A = MountState W → Option (A × MountState W)

infixl 5 ◌>>=◌ ◌>>◌
abbrev pub ◌>>=◌ : {W A B : Type 0} → Probe W A → (A → Probe W B) → Probe W B
◌>>=◌ m f = λ s. elim (m s) [ none ↦ none | some (a, s') ↦ f a s' ]

abbrev pub ◌>>◌ : {W B : Type 0} → Probe W (Unit {0}) → Probe W B → Probe W B
m >> k = m >>= λ _. k

abbrev pub pure : {W A : Type 0} → A → Probe W A
pure a = λ s. some (a, s)

abbrev pub out_of_fuel : {W A : Type 0} → Probe W A
out_of_fuel = λ _. none

abbrev pub mnt : {W A : Type 0} → Mnt W A → Probe W A
mnt m = λ s. some (m s)

abbrev pub cmd : {W A : Type 0} → Cmd W A → Probe W A
cmd m = λ s. elim (m s.drive) [ none ↦ none | some (a, d) ↦ some (a, record s { drive = d }) ]
