-- ===== src/Cmd.antt =====
-- The monad of calls that can send a command again: `none` means that the fuel ran out.
pub mod Rules
use libusbhsfs.Base.{Option, none, some}
use libusbhsfs.Usb.{State, Io}

abbrev pub Cmd : Type 0 → Type 0 → Type 0
Cmd W A = State W → Option (A × State W)

infixl 5 ◌>>=◌ ◌>>◌
abbrev pub ◌>>=◌ : {W A B : Type 0} → Cmd W A → (A → Cmd W B) → Cmd W B
◌>>=◌ m f = λ s. elim (m s) [ none ↦ none | some (a, s') ↦ f a s' ]

abbrev pub ◌>>◌ : {W B : Type 0} → Cmd W (Unit {0}) → Cmd W B → Cmd W B
m >> k = m >>= λ _. k

abbrev pub pure : {W A : Type 0} → A → Cmd W A
pure a = λ s. some (a, s)

abbrev pub out_of_fuel : {W A : Type 0} → Cmd W A
out_of_fuel = λ _. none

abbrev pub lift : {W A : Type 0} → Io W A → Cmd W A
lift m = λ s. some (m s)
