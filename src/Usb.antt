-- ===== src/Usb.antt =====
-- What the library asks of libnx and the C allocator, the state that its transfers change, and
-- the monad of calls over that state. Sources: usb_common.h, usbhsfs_drive.h.
use libusbhsfs.Base.{ℕ, suc, ◌-◌, Bool, true, false, not, ◌&&◌, ◌||◌, if◌then◌else◌}
use libusbhsfs.Bytes.{Buf}

-- `LibnxError_*` of the results that the library makes itself.
pub data LibnxError : Type 0 where
  bad_input heap_alloc_failed bad_usb_comms_read io_error : LibnxError

-- A `Result`: success, an error of Module_Libnx, the kernel's TimedOut, or any other error.
pub data Result : Type 0 where
  success : Result
  libnx : LibnxError → Result
  kernel_timed_out : Result
  error : ℕ → Result

abbrev pub failed : Result → Bool
failed success = false
failed _ = true

abbrev pub is_timed_out : Result → Bool
is_timed_out kernel_timed_out = true
is_timed_out _ = false

-- The parts of `UsbHsClientEpSession` and `UsbHsClientIfSession` that the code reads. `active` is
-- `serviceIsActive` and `usbHsIfIsActive`.
pub record EpSession : Type 0 where
  pub active : Bool
  pub address : ℕ

pub record IfSession : Type 0 where
  pub active : Bool
  pub interface_number : ℕ
  pub alternate_setting : ℕ
  pub num_configurations : ℕ

-- The parts of `UsbHsFsDriveContext` that a transfer reads. Its fields stay as they are while
-- commands run. `has_xfer_buf` is `xfer_buf != NULL`.
pub record DriveContext : Type 0 where
  pub has_xfer_buf : Bool
  pub uasp : Bool
  pub if_session : IfSession
  pub in_ep_1 : EpSession
  pub in_ep_2 : EpSession
  pub out_ep_1 : EpSession
  pub out_ep_2 : EpSession

-- usbHsFsDriveIsValidContext().
unfoldable pub is_valid_context : DriveContext → Bool
is_valid_context d =
    d.has_xfer_buf
    && d.if_session.active
    && d.in_ep_1.active
    && d.out_ep_1.active
    && (not d.uasp || (d.in_ep_2.active && d.out_ep_2.active))

-- A control transfer: the setup packet, and what comes back.
pub record Setup : Type 0 where
  pub request_type : ℕ
  pub request : ℕ
  pub value : ℕ
  pub index : ℕ
  pub length : ℕ

pub record CtrlReply : Type 0 where
  pub rc : Result
  pub reply : Buf
  pub size : ℕ

-- What usbHsEpGetXferReport() returns: its own result, the number of reports, and the first one.
pub record XferReport : Type 0 where
  pub rc : Result
  pub count : ℕ
  pub transferred : ℕ
  pub res : Result

-- The services outside the library, over a state `W` of theirs that holds the device too. A call
-- that moves data takes the transfer buffer and returns it as the device left it.
pub record Usb (W : Type 0) : Type 0 where
  pub hos_before_2_0_0 : Bool
  -- usbHsIfCtrlXfer, on the interface session.
  pub if_ctrl_xfer : Setup → W → CtrlReply × W
  -- serviceDispatchInOut on the endpoint session: command, size, timeout, size of the mapped
  -- buffer. It returns the transferred size, which counts on
  -- success only.
  pub ep_submit_request : EpSession → ℕ → ℕ → ℕ → ℕ → Buf → W → (Result × ℕ × Buf) × W
  -- usbHsEpPostBufferAsync, eventWait on the endpoint's event, eventClear, usbHsEpGetXferReport.
  pub ep_post_buffer_async : EpSession → ℕ → Buf → W → Result × W
  pub event_wait : EpSession → ℕ → Buf → W → (Result × Buf) × W
  pub event_clear : EpSession → W → W
  pub ep_get_xfer_report : EpSession → W → XferReport × W
  -- Whether memalign, malloc or calloc of so many bytes gives memory.
  pub allocate : ℕ → W → Bool × W
  -- randomGet of 4 bytes.
  pub random_get : W → ℕ × W
  -- svcSleepThread, in seconds.
  pub sleep : ℕ → W → W

-- `xfer_buf` is the drive's transfer buffer, `medium_present` is g_mediumPresent, and `live` counts
-- the blocks that are allocated and not freed.
pub record State (W : Type 0) : Type 0 where
  pub world : W
  pub xfer_buf : Buf
  pub medium_present : Bool
  pub live : ℕ

-- A call: from the state to a value and the new state.
abbrev pub Io : Type 0 → Type 0 → Type 0
Io W A = State W → A × State W

infixl 5 ◌>>=◌ ◌>>◌
abbrev pub ◌>>=◌ : {W A B : Type 0} → Io W A → (A → Io W B) → Io W B
◌>>=◌ m f = λ s. f (m s).0 (m s).1

abbrev pub ◌>>◌ : {W B : Type 0} → Io W (Unit {0}) → Io W B → Io W B
◌>>◌ m k = λ s. k (m s).1

abbrev pub pure : {W A : Type 0} → A → Io W A
pure a = λ s. (a, s)

abbrev pub when : {W : Type 0} → Bool → Io W (Unit {0}) → Io W (Unit {0})
when b m = if b then m else pure tt

-- A call of a service that touches nothing but its own state.
abbrev pub service : {W A : Type 0} → (W → A × W) → Io W A
service f = λ s. ((f s.world).0, record s { world = (f s.world).1 })

abbrev pub get_xfer_buf : {W : Type 0} → Io W Buf
get_xfer_buf = λ s. (s.xfer_buf, s)

abbrev pub set_xfer_buf : {W : Type 0} → Buf → Io W (Unit {0})
set_xfer_buf b = λ s. (tt, record s { xfer_buf = b })

abbrev pub set_medium_present : {W : Type 0} → Bool → Io W (Unit {0})
set_medium_present b = λ s. (tt, record s { medium_present = b })

module _ {W : Type 0} (usb : Usb W) where
  -- memalign() and calloc(), and free() of what they gave.
  unfoldable pub alloc : ℕ → Io W Bool
  alloc n = do
    ok ← service (usb.allocate n)
    λ s. (ok, record s { live = if ok then suc s.live else s.live })

  unfoldable pub free : Io W (Unit {0})
  free = λ s. (tt, record s { live = s.live - 1 })

  unfoldable pub ctrl_xfer : Setup → Io W CtrlReply
  ctrl_xfer setup = service (usb.if_ctrl_xfer setup)
