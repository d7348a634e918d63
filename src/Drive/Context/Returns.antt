-- ===== src/Drive/Context/Returns.antt =====
-- The destruction of a drive whose units are not to be stopped returns, as it sends no command.
use libusbhsfs.Base.{
  ℕ, ◌≡◌, refl, Bool, true, false, not, ◌||◌, List, [], ◌∷◌, Option, none, some, leb, if◌then◌else◌,
}
use libusbhsfs.Usb.{DriveContext, Usb, is_valid_context, free, service}
use libusbhsfs.Packets.{ums_max_lun}
use libusbhsfs.Scsi.Lun.{LogicalUnitContext}
use libusbhsfs.Mount.Context.{FileSystemContext}
use libusbhsfs.Mount.Monad.{MountState, Libs, io, get, put}
use libusbhsfs.Mount.Probe.{Probe, ◌>>=◌, ◌>>◌, pure, mnt}
use libusbhsfs.Drive.Endpoints.{close_slots}
use libusbhsfs.Drive.Units.{
  StoredUnit, destroy_file_systems, destroy_logical_unit_context, destroy_units,
}
use libusbhsfs.Drive.Context.{Drive, Host, free_string, free_units, close_sessions, destroy_context}

-- A call returned, and `P` holds of its value and state.
abbrev pub Surely :
    {W A : Type 0} → (A → MountState W → Type 0) → Option (A × MountState W) → Type 0
Surely P none = ⊥
Surely P (some r) = P r.0 r.1

module _ {W A B : Type 0} (Q : A → MountState W → Type 0) (P : B → MountState W → Type 0) where
  Surely-both :
      (o : Option (A × MountState W)) (f : A → Probe W B) (s : MountState W)
      → Surely Q o
      → ((a : A) (s' : MountState W) → Q a s' → Surely P (f a s'))
      → Surely P (((λ _. o) >>= f) s)
  Surely-both none f s h k = h
  Surely-both (some r) f s h k = k r.0 r.1 h

  -- One call, and then the rest.
  pub Surely-bind :
      (m : Probe W A) (f : A → Probe W B) (s : MountState W)
      → Surely Q (m s)
      → ((a : A) (s' : MountState W) → Q a s' → Surely P (f a s'))
      → Surely P ((m >>= f) s)
  Surely-bind m f s = Surely-both (m s) f s

pub Surely-if :
    {W A : Type 0} (P : A → MountState W → Type 0) (b : Bool) (m n : Probe W A) (s : MountState W)
    → (b ≡ true → Surely P (m s))
    → (b ≡ false → Surely P (n s))
    → Surely P ((if b then m else n) s)
Surely-if P true m n s h k = h refl
Surely-if P false m n s h k = k refl

pub Surely-map :
    {W A : Type 0} (Q P : A → MountState W → Type 0) (o : Option (A × MountState W))
    → ((a : A) (s : MountState W) → Q a s → P a s)
    → Surely Q o
    → Surely P o
Surely-map Q P none k h = h
Surely-map Q P (some r) k h = k r.0 r.1 h

abbrev Any : {W A : Type 0} → A → MountState W → Type 0
Any a s = Unit

module _ {W : Type 0} (usb : Usb W) (libs : Libs W) (d : DriveContext) (fuel : ℕ) where
  file_systems_return :
      (l : LogicalUnitContext) (cs : List FileSystemContext) (s : MountState W)
      → Surely Any (destroy_file_systems usb libs d fuel l cs s)
  unfolding destroy_file_systems
  file_systems_return l [] s = tt
  file_systems_return l (c ∷ cs) s = file_systems_return l cs _

  unit_returns :
      (l : LogicalUnitContext) (s : MountState W)
      → Surely Any (destroy_logical_unit_context usb libs d fuel l false s)
  unfolding destroy_logical_unit_context
  unit_returns l s =
      let empty : Probe W (Unit {0}) =
        mnt (io (free usb)) >> mnt (put (λ t. record t { has_fs_ctx = false })) in
      let clear : MountState W → Probe W (Unit {0}) =
        λ t. destroy_file_systems usb libs d fuel l t.fs_ctx >> empty in
      let release : MountState W → Probe W (Unit {0}) =
        λ t. if not t.has_fs_ctx then pure tt else clear t in
      let work : Probe W (Unit {0}) = mnt get >>= λ t. (release t >> pure tt) in
      Surely-if Any (not (is_valid_context d) || leb ums_max_lun l.lun) (pure tt) work s (λ _. tt)
        (λ _.
          Surely-bind Any Any (release s) (λ _. pure tt) s
            (Surely-if Any (not s.has_fs_ctx) (pure tt) (clear s) s (λ _. tt)
              (λ _.
                Surely-bind Any Any (destroy_file_systems usb libs d fuel l s.fs_ctx) _ s
                  (file_systems_return l s.fs_ctx s) (λ _ t _. tt)))
            (λ _ t _. tt))

  units_return :
      (us : List StoredUnit) (s : MountState W)
      → Surely Any (destroy_units usb libs d fuel false us s)
  unfolding destroy_units
  units_return [] s = tt
  units_return (u ∷ us) s =
      Surely-bind Any Any (destroy_logical_unit_context usb libs d fuel u.lun_ctx false) _ _
        (unit_returns u.lun_ctx _) (λ _ t _. units_return us _)

module _ {W : Type 0} (h : Host W) where
  string_returns : (str : Option (List ℕ)) (s : MountState W) → Surely Any (free_string h str s)
  unfolding free_string
  string_returns none s = tt
  string_returns (some str) s = tt

  drive_units_return : (drive : Drive) (s : MountState W) → Surely Any (free_units h false drive s)
  unfolding free_units
  drive_units_return drive s = by_array drive.lun_ctx
    where
      by_array :
          (o : Option (List StoredUnit))
          → Surely Any (
              (elim o as (λ _. Probe W (Unit {0})) [
                | none ↦ pure tt
                | some us ↦
                    (destroy_units h.usb h.libs drive.context h.fuel false us
                      >> mnt (io (free h.usb)))
              ])
                s)
      by_array none = tt
      by_array (some us) =
          Surely-bind Any Any (destroy_units h.usb h.libs drive.context h.fuel false us) _ s
            (units_return h.usb h.libs drive.context h.fuel us s) (λ _ t _. tt)

  sessions_return : (d : DriveContext) (s : MountState W) → Surely Any (close_sessions h d s)
  unfolding close_sessions
  sessions_return d s =
      let r = close_slots h.hs d s.drive in
      let close : Probe W DriveContext =
        mnt (io (service (h.hs.if_close r.0.if_session))) >>= λ ses.
        pure (record r.0 { if_session = ses }) in
      Surely-if Any (not r.0.if_session.active) (pure r.0) close (record s { drive = r.1 })
        (λ _. tt) (λ _. tt)

  pub destroy_context_returns :
      (drive : Drive) (s : MountState W) → Surely (λ _ _. Unit) (destroy_context h false drive s)
  unfolding destroy_context
  destroy_context_returns drive s =
      Surely-bind Any Any (free_units h false drive) _ s (drive_units_return drive s) (λ _ s1 _.
        Surely-bind Any Any (free_string h drive.manufacturer) _ s1 (string_returns _ s1) (λ _ s2 _.
          Surely-bind Any Any (free_string h drive.product_name) _ s2 (string_returns _ s2)
            (λ _ s3 _.
              Surely-bind Any Any (free_string h drive.serial_number) _ s3 (string_returns _ s3)
                (λ _ s4 _.
                  Surely-bind Any Any (close_sessions h drive.context) _ s4
                    (sessions_return drive.context s4)
                    (λ d s5 _.
                      Surely-bind Any Any
                        (if d.has_xfer_buf then mnt (io (free h.usb)) else pure tt) _ s5
                        (Surely-if Any d.has_xfer_buf (mnt (io (free h.usb))) (pure tt) s5 (λ _. tt)
                          (λ _. tt))
                        (λ _ s6 _. tt))))))
