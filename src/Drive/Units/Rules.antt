-- ===== src/Drive/Units/Rules.antt =====
-- What holds of the outcome of a call that reads a unit, if it has one.
use libusbhsfs.Base.{◌≡◌, refl, Bool, true, false, Option, none, some, if◌then◌else◌}
use libusbhsfs.Usb.{State}
use libusbhsfs.Cmd.{Cmd}
use libusbhsfs.Mount.Monad.{MountState}
use libusbhsfs.Mount.Probe.{Probe, ◌>>=◌, cmd}

-- What holds of the value and the state of a call that returned.
abbrev pub Then : {W A : Type 0} → (A → MountState W → Type 0) → Option (A × MountState W) → Type 0
Then P none = Unit
Then P (some r) = P r.0 r.1

module _ {W A B : Type 0} (Q : A → MountState W → Type 0) (P : B → MountState W → Type 0) where
  Then-both :
      (o : Option (A × MountState W)) (f : A → Probe W B) (s : MountState W)
      → Then Q o
      → ((a : A) (s' : MountState W) → Q a s' → Then P (f a s'))
      → Then P (((λ _. o) >>= f) s)
  Then-both none f s h k = tt
  Then-both (some r) f s h k = k r.0 r.1 h

  -- One call, and then the rest.
  pub Then-bind :
      (m : Probe W A) (f : A → Probe W B) (s : MountState W)
      → Then Q (m s)
      → ((a : A) (s' : MountState W) → Q a s' → Then P (f a s'))
      → Then P ((m >>= f) s)
  Then-bind m f s = Then-both (m s) f s

-- Nothing is asked of a call.
pub Then-any : {W A : Type 0} (o : Option (A × MountState W)) → Then (λ _ _. Unit) o
Then-any none = tt
Then-any (some r) = tt

-- What is known of the outcome of a command, when it has one.
pub Then-cmd :
    {W A : Type 0} (P : A → Type 0) (m : Cmd W A) (s : MountState W)
    → ((r : A × State W) → m s.drive ≡ some r → P r.0)
    → Then (λ a _. P a) (cmd m s)
Then-cmd {W} {A} P m s = of_outcome (m s.drive)
  where
    of_outcome :
        (o : Option (A × State W))
        → ((r : A × State W) → o ≡ some r → P r.0)
        → Then
            (λ a _. P a)
            (elim o as (λ _. Option (A × MountState W)) [
              | none ↦ none
              | some (a, t) ↦ some (a, record s { drive = t })
            ])
    of_outcome none k = tt
    of_outcome (some r) k = k r refl

pub Then-if :
    {W A : Type 0} (P : A → MountState W → Type 0) (b : Bool) (m n : Probe W A) (s : MountState W)
    → (b ≡ true → Then P (m s))
    → (b ≡ false → Then P (n s))
    → Then P ((if b then m else n) s)
Then-if P true m n s h k = h refl
Then-if P false m n s h k = k refl
