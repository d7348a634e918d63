-- ===== src/Drive/Endpoints/Found.antt =====
-- source/usbhsfs_drive.c: the loop over endpoint and pipe usage descriptors.
use libusbhsfs.Base.{
  ℕ, zero, suc, ◌+◌, ◌≡◌, refl, Bool, true, false, not, ◌||◌, Option, none, some, arith, leb,
  if◌then◌else◌,
}
use libusbhsfs.Bytes.{Buf}
use libusbhsfs.Usb.{DriveContext, State, Io, ◌>>=◌, pure}
use libusbhsfs.Drive.Interface.{Interface, Hs}
use libusbhsfs.Drive.Endpoints.{
  slot_of, all_active, pipe_fits, is_input, is_skipped, is_bad_descriptor, get_endpoint_session,
  parse_endpoints,
}

-- All sessions are active if the loop says so.
abbrev pub IsFound : {W : Type 0} → ((Bool × ℕ) × DriveContext) × State W → Type 0
IsFound r = r.0.0.0 ≡ true → all_active r.0.1 ≡ true

IsFound-if :
    {W : Type 0} (b : Bool) (m n : Io W ((Bool × ℕ) × DriveContext)) (s : State W)
    → IsFound (m s)
    → IsFound (n s)
    → IsFound ((if b then m else n) s)
IsFound-if true m n s h k = h
IsFound-if false m n s h k = k

IsFound-all_active :
    {W : Type 0} (off : ℕ) (d : DriveContext) (n : Io W ((Bool × ℕ) × DriveContext)) (s : State W)
    → IsFound (n s)
    → IsFound ((if all_active d then pure ((true, off), d) else n) s)
IsFound-all_active off d n s k = by_test (all_active d) refl
  where
    by_test : (b : Bool) → all_active d ≡ b → IsFound ((if b then pure ((true, off), d) else n) s)
    by_test true e = λ _. e
    by_test false e = k

-- An endpoint session is opened, and the loop stops or goes on behind it.
IsFound-open :
    {W : Type 0} (misfit : Bool) (off : ℕ) (d : DriveContext) (open_ep : Io W (Bool × DriveContext))
    (next : DriveContext → Io W ((Bool × ℕ) × DriveContext)) (s : State W)
    → ((d' : DriveContext) (s' : State W) → IsFound (next d' s'))
    → IsFound (
        (if misfit
            then pure ((false, off), d)
            else (open_ep >>= λ (ok, d').
                if not ok
                then pure ((false, off), d')
                else if all_active d'
                then pure ((true, off), d')
                else next d'))
          s)
IsFound-open misfit off d open_ep next s k =
    let r = open_ep s in
    let last = if all_active r.0.1 then pure ((true, off), r.0.1) else next r.0.1 in
    IsFound-if misfit (pure ((false, off), d))
      (open_ep >>= λ (ok, d').
        if not ok
        then pure ((false, off), d')
        else if all_active d'
        then pure ((true, off), d')
        else next d')
      s (λ found. ground arith)
      (IsFound-if (not r.0.0) (pure ((false, off), r.0.1)) last r.1 (λ found. ground arith)
        (IsFound-all_active off r.0.1 (next r.0.1) r.1 (k r.0.1 r.1)))

module _ {W : Type 0} (hs : Hs W) where
  pub parse_endpoints-IsFound :
      (i : Interface) (config : Buf) (size rounds off : ℕ) (ep_desc : Option ℕ) (d : DriveContext)
      (s : State W)
      → IsFound (parse_endpoints hs i config size rounds off ep_desc d s)
  unfolding parse_endpoints
  parse_endpoints-IsFound i config size zero off ep_desc d s = λ found. ground arith
  parse_endpoints-IsFound i config size (suc rounds) off none d s =
      let go = parse_endpoints hs i config size rounds (off + config off) in
      let stop = pure ((false, off), d) in
      let next = go (some (config (off + 2))) d in
      IsFound-if (leb size (off + 1) || is_bad_descriptor config size off) stop
        (if is_skipped config off none then go none d else next) s (λ found. ground arith)
        (IsFound-if (is_skipped config off none) (go none d) next s
          (parse_endpoints-IsFound i config size rounds (off + config off) none d s)
          (parse_endpoints-IsFound i config size rounds (off + config off) (some (config (off + 2)))
            d s))
  parse_endpoints-IsFound i config size (suc rounds) off (some ep_addr) d s =
      let go = parse_endpoints hs i config size rounds (off + config off) in
      let stop = pure ((false, off), d) in
      let pipe_id = config (off + 2) in
      let misfit = not (pipe_fits (is_input ep_addr) pipe_id) in
      let open_ep = get_endpoint_session hs i (slot_of pipe_id) (is_input ep_addr) ep_addr d in
      let use_it =
        if misfit
        then pure ((false, off + config off), d)
        else (open_ep >>= λ (ok, d').
            if not ok
            then pure ((false, off + config off), d')
            else if all_active d'
            then pure ((true, off + config off), d')
            else go none d') in
      IsFound-if (leb size (off + 1) || is_bad_descriptor config size off) stop
        (if is_skipped config off (some ep_addr) then go (some ep_addr) d else use_it) s
        (λ found. ground arith)
        (IsFound-if (is_skipped config off (some ep_addr)) (go (some ep_addr) d) use_it s
          (parse_endpoints-IsFound i config size rounds (off + config off) (some ep_addr) d s)
          (IsFound-open misfit (off + config off) d open_ep (go none) s
            (parse_endpoints-IsFound i config size rounds (off + config off) none)))
