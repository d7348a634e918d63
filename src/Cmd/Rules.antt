-- ===== src/Cmd/Rules.antt =====
-- What holds of the outcome of a call, if it has one.
use libusbhsfs.Base.{◌≡◌, refl, subst, Bool, true, false, Option, none, some, if◌then◌else◌}
use libusbhsfs.Usb.{State}
use libusbhsfs.Cmd.{Cmd, ◌>>=◌}

-- `P` holds of the value and the state, unless the fuel ran out.
abbrev pub After {ℓ} : {W A : Type 0} → (A → State W → Type ℓ) → Option (A × State W) → Type ℓ
After P none = Unit
After P (some r) = P r.0 r.1

module _ {ℓ κ} {W A B : Type 0} (Q : A → State W → Type ℓ) (P : B → State W → Type κ) where
  After-both :
      (o : Option (A × State W)) (f : A → Cmd W B) (s : State W)
      → After Q o
      → ((a : A) (s' : State W) → Q a s' → After P (f a s'))
      → After P (((λ _. o) >>= f) s)
  After-both none f s h k = tt
  After-both (some r) f s h k = k r.0 r.1 h

  -- One call, and then the rest.
  pub After-bind :
      (m : Cmd W A) (f : A → Cmd W B) (s : State W)
      → After Q (m s)
      → ((a : A) (s' : State W) → Q a s' → After P (f a s'))
      → After P ((m >>= f) s)
  After-bind m f s = After-both (m s) f s

pub After-map {ℓ κ} :
    {W A : Type 0} (Q : A → State W → Type ℓ) (P : A → State W → Type κ) (o : Option (A × State W))
    → ((a : A) (s : State W) → Q a s → P a s)
    → After Q o
    → After P o
After-map Q P none f h = tt
After-map Q P (some r) f h = f r.0 r.1 h

-- What is known of a call holds of the outcome that it has.
pub After-some {ℓ} :
    {W A : Type 0} (P : A → State W → Type ℓ) (o : Option (A × State W)) (r : A × State W)
    → After P o
    → o ≡ some r
    → P r.0 r.1
After-some P o r h e = subst (After P) e h

known : {W A : Type 0} (o : Option (A × State W)) → After {0} (λ _ _. Unit) o
known none = tt
known (some r) = tt

module _ {κ} {W B : Type 0} (P : B → State W → Type κ) where
  -- Nothing is known of the first call.
  pub After-any :
      {A : Type 0} (m : Cmd W A) (f : A → Cmd W B) (s : State W)
      → ((a : A) (s' : State W) → After P (f a s'))
      → After P ((m >>= f) s)
  After-any m f s k = After-bind (λ _ _. Unit) P m f s (known (m s)) (λ a s' _. k a s')

  pub After-if :
      (b : Bool) (m n : Cmd W B) (s : State W)
      → (b ≡ true → After P (m s))
      → (b ≡ false → After P (n s))
      → After P ((if b then m else n) s)
  After-if true m n s h k = h refl
  After-if false m n s h k = k refl

-- The second outcome is the first one, if the first one is there.
abbrev pub Extends : {W A : Type 0} → Option (A × State W) → Option (A × State W) → Type 0
Extends none o = Unit
Extends (some r) o = o ≡ some r

pub Extends-refl : {W A : Type 0} (o : Option (A × State W)) → Extends o o
Extends-refl none = tt
Extends-refl (some r) = refl

Extends-both :
    {W A B : Type 0} (o o' : Option (A × State W)) (f f' : A → Cmd W B) (s : State W)
    → Extends o o'
    → ((a : A) (s' : State W) → Extends (f a s') (f' a s'))
    → Extends (((λ _. o) >>= f) s) (((λ _. o') >>= f') s)
Extends-both none o' f f' s h k = tt
Extends-both (some r) o' f f' s h k = rw (h, ◌>>=◌) (k r.0 r.1)

pub Extends-bind :
    {W A B : Type 0} (m m' : Cmd W A) (f f' : A → Cmd W B) (s : State W)
    → Extends (m s) (m' s)
    → ((a : A) (s' : State W) → Extends (f a s') (f' a s'))
    → Extends ((m >>= f) s) ((m' >>= f') s)
Extends-bind m m' f f' s = Extends-both (m s) (m' s) f f' s

pub Extends-some :
    {W A : Type 0} (o o' : Option (A × State W)) (r : A × State W)
    → Extends o o'
    → o ≡ some r
    → o' ≡ some r
Extends-some o o' r h e = subst (λ x. Extends x o') e h

pub Extends-if :
    {W A : Type 0} (b : Bool) (m m' n n' : Cmd W A) (s : State W)
    → Extends (m s) (m' s)
    → Extends (n s) (n' s)
    → Extends ((if b then m else n) s) ((if b then m' else n') s)
Extends-if true m m' n n' s h k = h
Extends-if false m m' n n' s h k = k

-- The fuel was enough.
abbrev pub Returns : {W A : Type 0} → Option (A × State W) → Type 0
Returns {W} {A} o = (r : A × State W) × (o ≡ some r)

Returns-both :
    {W A B : Type 0} (o : Option (A × State W)) (f : A → Cmd W B) (s : State W)
    → Returns o
    → ((r : A × State W) → o ≡ some r → Returns (f r.0 r.1))
    → Returns (((λ _. o) >>= f) s)
Returns-both none f s (r, e) k = absurd (cc)
Returns-both (some r) f s h k = k r refl

pub Returns-bind :
    {W A B : Type 0} (m : Cmd W A) (f : A → Cmd W B) (s : State W)
    → Returns (m s)
    → ((r : A × State W) → m s ≡ some r → Returns (f r.0 r.1))
    → Returns ((m >>= f) s)
Returns-bind m f s = Returns-both (m s) f s

pub Returns-if :
    {W A : Type 0} (b : Bool) (m n : Cmd W A) (s : State W)
    → Returns (m s)
    → (b ≡ false → Returns (n s))
    → Returns ((if b then m else n) s)
Returns-if true m n s h k = h
Returns-if false m n s h k = k refl

Never_both {ℓ} :
    {W A B : Type 0} (Q : A → State W → Type ℓ) (o : Option (A × State W)) (f : A → Cmd W B)
    (s : State W)
    → After Q o
    → ((a : A) (s' : State W) → Q a s' → f a s' ≡ none)
    → ((λ _. o) >>= f) s ≡ none
Never_both Q none f s h k = refl
Never_both Q (some r) f s h k = k r.0 r.1 h

-- Whatever the first call gives, the rest runs out of fuel.
pub Never-bind {ℓ} :
    {W A B : Type 0} (Q : A → State W → Type ℓ) (m : Cmd W A) (f : A → Cmd W B) (s : State W)
    → After Q (m s)
    → ((a : A) (s' : State W) → Q a s' → f a s' ≡ none)
    → (m >>= f) s ≡ none
Never-bind Q m f s = Never_both Q (m s) f s

-- A call whose outcome is known.
pub bind-some :
    {W A B : Type 0} (m : Cmd W A) (f : A → Cmd W B) (s : State W) (r : A × State W)
    → m s ≡ some r
    → (m >>= f) s ≡ f r.0 r.1
bind-some m f s r e = rw (e, ◌>>=◌) refl
