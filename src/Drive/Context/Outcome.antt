-- ===== src/Drive/Context/Outcome.antt =====
-- What the initialization of a drive's context leaves.
use libusbhsfs.Base.{
  ℕ, ◌*◌, ◌≤◌, ◌≡◌, refl, subst, Bool, true, false, not, List, [], Option, none, some, arith,
  length, if◌then◌else◌, ◌==◌, ltb,
}
use libusbhsfs.Usb.{DriveContext, State, Result, service, alloc, free, failed}
use libusbhsfs.Packets.{ums_max_lun}
use libusbhsfs.Request.{get_max_logical_units}
use libusbhsfs.Request.Memory.{get_max_logical_units-le}
use libusbhsfs.Scsi.Transfer.{clear_stall_status, xfer_buf_size}
use libusbhsfs.Mount.Monad.{MountState, io}
use libusbhsfs.Mount.Probe.{Probe, ◌>>=◌, ◌>>◌, pure, mnt}
use libusbhsfs.Drive.Interface.{Interface}
use libusbhsfs.Drive.Endpoints.{setup_interface_and_endpoint_descriptors}
use libusbhsfs.Drive.Endpoints.Opened.{IsHs, IsActive, IsSettled}
use libusbhsfs.Drive.Endpoints.Settled.{setup_interface_and_endpoint_descriptors-IsSettled}
use libusbhsfs.Drive.Units.{StoredUnit, Units, prepare_units}
use libusbhsfs.Drive.Units.Kept.{AreBetween, AreBetween-empty, AreKept, prepare_units-AreKept}
use libusbhsfs.Drive.Units.Rules.{Then, Then-bind, Then-any, Then-if}
use libusbhsfs.Drive.Context.Gone.{IsGone, Gone, destroy_context-IsGone}
use libusbhsfs.Drive.Context.{
  Drive, Host, is_libnx_error, destroy_context, give_up, finish_units, find_max_lun,
  prepare_lun_contexts, prepare_drive, set_up_drive, initialize_context,
}

-- The two endpoints of the Bulk-Only Transport are open, and there are started units, whose numbers
-- ascend and are below `max_lun`.
pub record IsReady (drive : Drive) : Type 0 where
  pub endpoints : IsActive true false drive.context
  pub protocol : drive.context.uasp ≡ false
  pub at_most_16 : drive.max_lun ≤ ums_max_lun
  pub units : List StoredUnit
  pub held : drive.lun_ctx ≡ some units
  pub at_least_1 : 1 ≤ length units
  pub started : AreBetween drive.context 0 drive.max_lun units

abbrev pub IsInitialized : Bool → Drive → Type 0
IsInitialized true drive = IsReady drive
IsInitialized false drive = IsGone drive

module _ {W : Type 0} (h : Host W) (law : IsHs h.hs) where
  abbrev Done : Bool × Drive → MountState W → Type 0
  Done r s = IsInitialized r.0 r.1

  give_up-Done : (drive : Drive) (s : MountState W) → Then Done (give_up h drive s)
  unfolding give_up
  give_up-Done drive s =
      Then-bind Gone Done (destroy_context h true drive) _ s
        (destroy_context-IsGone h law true drive s) (λ drive' s' gone. gone)

  -- Behind the loop over the units.
  finish_units-Done :
      (drive : Drive) (r : Bool × Units) (s : MountState W)
      → IsActive true false drive.context
      → drive.context.uasp ≡ false
      → drive.max_lun ≤ ums_max_lun
      → AreBetween drive.context 0 drive.max_lun r.1.counted
      → Then Done (finish_units h drive r s)
  unfolding finish_units
  finish_units-Done drive (to_end, us) s active bot le kept =
      let with_units = record drive { lun_ctx = some us.counted } in
      let ready : 1 ≤ length us.counted → IsReady with_units = λ one. record {
        endpoints = active;
        protocol = bot;
        at_most_16 = le;
        units = us.counted;
        held = refl;
        at_least_1 = one;
        started = kept;
      } in
      let drop : Probe W (Bool × Drive) =
        elim us.spare [ none ↦ pure tt | some l ↦ mnt (io (free h.usb)) ] >> give_up h with_units in
      let trim : Probe W (Bool × Drive) =
        mnt (io (service (h.usb.allocate (length us.counted * 8)))) >>= λ _.
        pure (true, with_units) in
      let keep : Probe W (Bool × Drive) =
        if ltb (length us.counted) drive.max_lun then trim else pure (true, with_units) in
      Then-if Done (not to_end) (give_up h with_units)
        (if length us.counted == 0 then drop else keep) s (λ _. give_up-Done with_units s)
        (λ _.
          Then-if Done (length us.counted == 0) drop keep s
            (λ _.
              Then-bind (λ _ _. Unit) Done
                (elim us.spare [ none ↦ pure tt | some l ↦ mnt (io (free h.usb)) ]) _ s (Then-any _)
                (λ _ s' _. give_up-Done with_units s'))
            (λ some_unit.
              Then-if Done (ltb (length us.counted) drive.max_lun) trim (pure (true, with_units)) s
                (λ _. ready (ground arith)) (λ _. ready (ground arith))))

  find_max_lun-le : (d : DriveContext) (s : State W) → (find_max_lun h d s).0 ≤ ums_max_lun
  unfolding find_max_lun
  find_max_lun-le d s =
      of_reply (get_max_logical_units h.usb d.if_session s)
        (λ n e. (get_max_logical_units-le h.usb d.if_session s n e).0)
    where
      of_reply :
          (r : (Result × Option ℕ) × State W)
          → ((n : ℕ) → r.0.1 ≡ some n → n ≤ ums_max_lun)
          → (elim r.0.1 as (λ _. ℕ × State W) [
            | some max ↦ (max, r.1)
            | none ↦ (1, (if is_libnx_error r.0.0 then r.1 else (clear_stall_status h.usb d r.1).1))
          ]).0
            ≤ ums_max_lun
      of_reply ((rc, none), t) k = omega arith
      of_reply ((rc, some n), t) k = k n refl

  prepare_lun_contexts-Done :
      (drive : Drive) (s : MountState W)
      → IsActive true drive.context.uasp drive.context
      → drive.max_lun ≤ ums_max_lun
      → Then Done (prepare_lun_contexts h drive s)
  unfolding prepare_lun_contexts
  prepare_lun_contexts-Done drive s active le =
      let start : Probe W (Bool × Units) =
        prepare_units h.usb h.libs drive.context h.fuel h.context_size h.rounds h.heap 0
          drive.max_lun (record { counted = []; spare = none }) in
      let fill : Probe W (Bool × Drive) = start >>= finish_units h drive in
      let make_array : Probe W Bool = mnt (io (alloc h.usb (drive.max_lun * 8))) in
      let go_on : Probe W (Bool × Drive) =
        make_array >>= λ has_array. if not has_array then give_up h drive else fill in
      Then-if Done drive.context.uasp (give_up h drive) go_on s (λ _. give_up-Done drive s)
        (λ bot.
          Then-bind (λ _ _. Unit) Done make_array _ s tt
            (λ has_array t _.
              Then-if Done (not has_array) (give_up h drive) fill t (λ _. give_up-Done drive t)
                (λ _.
                  Then-bind (AreKept drive.context drive.max_lun) Done start (finish_units h drive)
                    t
                    (prepare_units-AreKept h.usb h.libs drive.context h.fuel h.context_size h.rounds
                      h.heap drive.max_lun 0 drive.max_lun (record { counted = []; spare = none }) t
                      (omega arith) (AreBetween-empty drive.context))
                    (λ r t' kept.
                      finish_units-Done drive r t'
                        (subst (λ b. IsActive true b drive.context) bot active) bot le kept))))

  prepare_drive-Done :
      (i : Interface) (drive : Drive) (s : MountState W)
      → IsSettled true i drive.context
      → Then Done (prepare_drive h i drive s)
  unfolding prepare_drive
  prepare_drive-Done i drive s settled =
      prepare_lun_contexts-Done _ _
        (record {
          in_1_is = settled.in_1_is;
          out_1_is = settled.out_1_is;
          in_2_is = settled.in_2_is;
          out_2_is = settled.out_2_is;
        })
        (find_max_lun-le _ _)

  set_up_drive-Done :
      (i : Interface) (drive : Drive) (s : MountState W)
      → IsActive false false drive.context
      → Then Done (set_up_drive h i drive s)
  unfolding set_up_drive
  set_up_drive-Done i drive s closed =
      let r = setup_interface_and_endpoint_descriptors h.hs h.usb i drive.context s.drive in
      let settled : IsSettled r.0.0 r.0.1 r.0.2 =
        setup_interface_and_endpoint_descriptors-IsSettled h.hs law h.usb i drive.context s.drive
          closed in
      let drive' = record drive { context = record r.0.2 { if_session = r.0.1.session } } in
      let t = record s { drive = r.1 } in
      Then-if Done r.0.0 (prepare_drive h r.0.1 drive') (give_up h drive') t
        (λ ok. prepare_drive-Done r.0.1 drive' t (
          let all = subst (λ b. IsSettled b r.0.1 r.0.2) ok settled in
          record {
            in_1_is = all.in_1_is;
            out_1_is = all.out_1_is;
            in_2_is = all.in_2_is;
            out_2_is = all.out_2_is;
          }))
        (λ _. give_up-Done drive' t)

  -- If the initialization of a context none of whose four endpoint sessions is active returns, either
  -- it succeeded, and of the four just the two of the Bulk-Only Transport are active, and the drive
  -- has 1 to `max_lun` units, at most 16, which are started and whose numbers ascend and are below
  -- `max_lun`; or it failed, and none of the sessions that the context holds is active, neither the
  -- four nor that of the interface, and the context has neither a transfer buffer nor units nor
  -- strings. Sessions that were overwritten in the context while they were open are not spoken of.
  -- libnx is asked for this: an endpoint session that it opens is active, a session that it closes is
  -- not.
  pub initialize_context-IsInitialized :
      (i : Interface) (drive : Drive) (s : MountState W)
      → IsActive false false drive.context
      → Then (λ r _. IsInitialized r.0 r.1) (initialize_context h i drive s)
  unfolding initialize_context
  initialize_context-IsInitialized i drive s closed =
      let r = alloc h.usb xfer_buf_size s.drive in
      let a = h.hs.acquire_usb_if i r.1.world in
      let d = record drive.context { has_xfer_buf = true; if_session = a.0.1.session } in
      let drive' = record drive { context = d } in
      let t = record s { drive = r.1 } in
      let t' = record s { drive = record r.1 { world = a.1 } } in
      let acquire : Probe W (Bool × Drive) =
        mnt (io (service (h.hs.acquire_usb_if i))) >>= λ (rc, i').
        let d' = record drive.context { has_xfer_buf = true; if_session = i'.session } in
        if failed rc
        then give_up h (record drive { context = d' })
        else set_up_drive h i' (record drive { context = d' }) in
      Then-if Done (not r.0) (give_up h drive) acquire t (λ _. give_up-Done drive t)
        (λ _.
          Then-if Done (failed a.0.0) (give_up h drive') (set_up_drive h a.0.1 drive') t'
            (λ _. give_up-Done drive' t')
            (λ _. set_up_drive-Done a.0.1 drive' t' (record {
              in_1_is = closed.in_1_is;
              out_1_is = closed.out_1_is;
              in_2_is = closed.in_2_is;
              out_2_is = closed.out_2_is;
            })))
