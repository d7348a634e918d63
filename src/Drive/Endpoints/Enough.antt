-- ===== src/Drive/Endpoints/Enough.antt =====
-- source/usbhsfs_drive.c: the rounds that the model allows to the loops over descriptors are enough.
use libusbhsfs.Base.{
  ℕ, zero, suc, ◌+◌, ◌-◌, ◌≤◌, ◌≡◌, refl, ap, fun_ext, Bool, true, false, not, ◌||◌, Option, none,
  some, arith, leb, if◌then◌else◌,
}
use libusbhsfs.Bytes.{Buf, shift}
use libusbhsfs.Usb.{DriveContext, State, Io, ◌>>=◌, pure}
use libusbhsfs.Drive.Interface.{Interface, Hs, change_interface_descriptor}
use libusbhsfs.Drive.Endpoints.{
  slot_of, all_active, pipe_fits, is_input, is_skipped, is_bad_descriptor, is_uasp_interface,
  get_endpoint_session, parse_endpoints, setup_endpoint_descriptors, parse_interfaces,
}

-- Both branches of a test are the same call; the test is known there.
same_if :
    {W A : Type 0} (b : Bool) (m n m' n' : Io W A) (s : State W)
    → (b ≡ true → m s ≡ m' s)
    → (b ≡ false → n s ≡ n' s)
    → (if b then m else n) s ≡ (if b then m' else n') s
same_if true m n m' n' s h k = h refl
same_if false m n m' n' s h k = k refl

module _ {W : Type 0} (hs : Hs W) where
  -- As many rounds as there are bytes left.
  pub parse_endpoints_enough :
      (i : Interface) (config : Buf) (size rounds more off : ℕ) (ep_desc : Option ℕ)
      (d : DriveContext) (s : State W)
      → size ≤ rounds + off
      → rounds ≤ more
      → parse_endpoints hs i config size more off ep_desc d s
        ≡ parse_endpoints hs i config size rounds off ep_desc d s
  unfolding parse_endpoints is_bad_descriptor
  parse_endpoints_enough i config size zero zero off ep_desc d s room le = refl
  parse_endpoints_enough i config size zero (suc more) off none d s room le = ground arith
  parse_endpoints_enough i config size zero (suc more) off (some a) d s room le = ground arith
  parse_endpoints_enough i config size (suc rounds) zero off ep_desc d s room le = ground arith
  parse_endpoints_enough i config size (suc rounds) (suc more) off none d s room le =
      let at = off + config off in
      let bad = leb size (off + 1) || is_bad_descriptor config size off in
      let skip : ℕ → Io W ((Bool × ℕ) × DriveContext) =
        λ n. parse_endpoints hs i config size n at none d in
      let next : ℕ → Io W ((Bool × ℕ) × DriveContext) =
        λ n. parse_endpoints hs i config size n at (some (config (off + 2))) d in
      same_if bad (pure ((false, off), d))
        (if is_skipped config off none then skip more else next more) (pure ((false, off), d))
        (if is_skipped config off none then skip rounds else next rounds) s (λ _. refl)
        (λ good.
          same_if (is_skipped config off none) (skip more) (next more) (skip rounds) (next rounds) s
            (λ _.
              parse_endpoints_enough i config size rounds more at none d s (ground arith)
                (ground arith))
            (λ _.
              parse_endpoints_enough i config size rounds more at (some (config (off + 2))) d s
                (ground arith) (ground arith)))
  parse_endpoints_enough i config size (suc rounds) (suc more) off (some a) d s room le =
      let at = off + config off in
      let bad = leb size (off + 1) || is_bad_descriptor config size off in
      let skip : ℕ → Io W ((Bool × ℕ) × DriveContext) =
        λ n. parse_endpoints hs i config size n at (some a) d in
      let go_on : ℕ → DriveContext → Io W ((Bool × ℕ) × DriveContext) =
        λ n d'. parse_endpoints hs i config size n at none d' in
      let use_it : (DriveContext → Io W ((Bool × ℕ) × DriveContext))
          → Io W ((Bool × ℕ) × DriveContext) =
        λ next.
          if not (pipe_fits (is_input a) (config (off + 2)))
          then pure ((false, at), d)
          else (get_endpoint_session hs i (slot_of (config (off + 2))) (is_input a) a d
              >>= λ (ok, d').
                  if not ok
                  then pure ((false, at), d')
                  else if all_active d'
                  then pure ((true, at), d')
                  else next d') in
      same_if bad (pure ((false, off), d))
        (if is_skipped config off (some a) then skip more else use_it (go_on more))
        (pure ((false, off), d))
        (if is_skipped config off (some a) then skip rounds else use_it (go_on rounds)) s
        (λ _. refl)
        (λ good.
          same_if (is_skipped config off (some a)) (skip more) (use_it (go_on more)) (skip rounds)
            (use_it (go_on rounds)) s
            (λ _.
              parse_endpoints_enough i config size rounds more at (some a) d s (ground arith)
                (ground arith))
            (λ _.
              ap (λ next. use_it next s)
                (fun_ext (λ d'. fun_ext (λ s'.
                  parse_endpoints_enough i config size rounds more at none d' s' (ground arith)
                    (ground arith))))))

  -- The loop over endpoints does not move back.
  parse_endpoints-le :
      (i : Interface) (config : Buf) (size rounds off : ℕ) (ep_desc : Option ℕ) (d : DriveContext)
      (s : State W)
      → off ≤ (parse_endpoints hs i config size rounds off ep_desc d s).0.0.1
  unfolding parse_endpoints
  parse_endpoints-le i config size zero off ep_desc d s = ground arith
  parse_endpoints-le i config size (suc rounds) off none d s =
      let next =
        parse_endpoints-le i config size rounds (off + config off) (some (config (off + 2))) d s in
      let skip = parse_endpoints-le i config size rounds (off + config off) none d s in ground arith
  parse_endpoints-le i config size (suc rounds) off (some a) d s =
      let skip = parse_endpoints-le i config size rounds (off + config off) (some a) d s in
      let r = get_endpoint_session hs i (slot_of (config (off + 2))) (is_input a) a d s in
      let next = parse_endpoints-le i config size rounds (off + config off) none r.0.1 r.1 in
      ground arith

  setup_endpoints-le :
      (i : Interface) (config : Buf) (size off : ℕ) (d : DriveContext) (s : State W)
      → off ≤ (setup_endpoint_descriptors hs i config size off d s).0.0.1
  unfolding setup_endpoint_descriptors
  setup_endpoints-le i config size off d s =
      let parsed = parse_endpoints-le i config size (size - off) off none d s in ground arith

  -- As many rounds as there are bytes left are enough for the loop over interface descriptors, the
  -- endpoint descriptors behind each included: more rounds change nothing.
  pub parse_interfaces_enough :
      (orig config : Buf) (size rounds more off : ℕ) (i : Interface) (d : DriveContext)
      (s : State W)
      → size ≤ rounds + off
      → rounds ≤ more
      → parse_interfaces hs orig config size more off i d s
        ≡ parse_interfaces hs orig config size rounds off i d s
  unfolding parse_interfaces is_bad_descriptor
  parse_interfaces_enough orig config size zero zero off i d s room le = refl
  parse_interfaces_enough orig config size zero (suc more) off i d s room le = ground arith
  parse_interfaces_enough orig config size (suc rounds) zero off i d s room le = ground arith
  parse_interfaces_enough orig config size (suc rounds) (suc more) off i d s room le =
      let at = off + config off in
      let r = change_interface_descriptor hs i (shift off config) s in
      let q = setup_endpoint_descriptors hs r.0.1 config size at d r.1 in
      let go : ℕ → ℕ → Interface → DriveContext → Io W (Bool × Interface × DriveContext) =
        λ n at' i' d'. parse_interfaces hs orig config size n at' i' d' in
      let try : ℕ → Io W (Bool × Interface × DriveContext) = λ n.
        setup_endpoint_descriptors hs r.0.1 config size at d >>= λ ((ok, off'), d').
        if ok then pure (true, r.0.1, d') else go n off' r.0.1 d' in
      let use_it : ℕ → Io W (Bool × Interface × DriveContext) = λ n.
        change_interface_descriptor hs i (shift off config) >>= λ (changed, i').
        if not changed
        then go n at i' d
        else (setup_endpoint_descriptors hs i' config size at d >>= λ ((ok, off'), d').
            if ok then pure (true, i', d') else go n off' i' d') in
      let onward = setup_endpoints-le r.0.1 config size at d r.1 in
      same_if (leb size (off + 1) || is_bad_descriptor config size off) (pure (false, i, d))
        (if not (is_uasp_interface orig config off) then go more at i d else use_it more)
        (pure (false, i, d))
        (if not (is_uasp_interface orig config off) then go rounds at i d else use_it rounds) s
        (λ _. refl)
        (λ good.
          same_if (not (is_uasp_interface orig config off)) (go more at i d) (use_it more)
            (go rounds at i d) (use_it rounds) s
            (λ _.
              parse_interfaces_enough orig config size rounds more at i d s (ground arith)
                (ground arith))
            (λ _.
              same_if (not r.0.0) (go more at r.0.1 d) (try more) (go rounds at r.0.1 d)
                (try rounds) r.1
                (λ _.
                  parse_interfaces_enough orig config size rounds more at r.0.1 d r.1 (ground arith)
                    (ground arith))
                (λ _.
                  same_if q.0.0.0 (pure (true, r.0.1, q.0.1)) (go more q.0.0.1 r.0.1 q.0.1)
                    (pure (true, r.0.1, q.0.1)) (go rounds q.0.0.1 r.0.1 q.0.1) q.1 (λ _. refl)
                    (λ _.
                      parse_interfaces_enough orig config size rounds more q.0.0.1 r.0.1 q.0.1 q.1
                        (ground arith) (ground arith)))))
