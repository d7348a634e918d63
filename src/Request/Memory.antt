-- ===== src/Request/Memory.antt =====
-- What the control requests allocate and free, and what they hand to their callers.
use libusbhsfs.Base.{
  ℕ, zero, suc, ◌+◌, ◌*◌, ◌^◌, ◌%◌, ◌≤◌, ◌<◌, ◌≡◌, inl, inr, true, Option, none, some, arith, ◌==◌,
  Bool-cases,
}
use libusbhsfs.Bytes.{Buf}
use libusbhsfs.Usb.{CtrlReply, IfSession, EpSession, Usb, State, alloc, ctrl_xfer}
use libusbhsfs.Packets.{
  ums_max_lun, total_length, is_config_descriptor, same_descriptor, same_bytes, max_lun_of_reply,
  config_descriptor_size, dt_config, descriptor_setup, setup, request_type, endpoint_in,
  request_type_class, recipient_interface, request_bot_get_max_lun,
}
use libusbhsfs.Request.{
  get_max_logical_units, get_configuration_descriptor, get_full_configuration_descriptor,
  get_string_descriptor, get_endpoint_status, copy_string_descriptor,
}

-- The blocks that the caller has to free.
abbrev pub owned : {A : Type 0} → Option A → ℕ
owned none = 0
owned (some _) = 1

same_bytes_at : (n : ℕ) (a b : Buf) (i : ℕ) → same_bytes n a b ≡ true → i < n → b i ≡ a i
unfolding same_bytes
same_bytes_at zero a b i h k = absurd (omega arith)
same_bytes_at (suc n) a b i h k =
    let rest : same_bytes n a b ≡ true = ground arith in
    let below : i < n → b i ≡ a i = same_bytes_at n a b i rest in
    let last : b n ≡ a n = ground arith in
    elim (Bool-cases (i == n)) [
      | inl e ↦ let same : i ≡ n = ground arith in rw same last
      | inr e ↦ below (ground arith)
    ]

module _ {W : Type 0} (usb : Usb W) where
  get_max_logical_units-live :
      (ses : IfSession) (s : State W) → (get_max_logical_units usb ses s).1.live ≡ s.live
  unfolding get_max_logical_units
  get_max_logical_units-live ses s = ground arith

  get_full_live :
      (desc : ℕ) (config : Buf) (s : State W)
      → (get_full_configuration_descriptor usb desc config s).1.live
        ≡ s.live + owned (get_full_configuration_descriptor usb desc config s).0.1
  unfolding get_full_configuration_descriptor
  get_full_live desc config s = ground arith

  copy_live :
      (r : CtrlReply) (s : State W)
      → (copy_string_descriptor usb r s).1.live
        ≡ s.live + owned (copy_string_descriptor usb r s).0.1
  unfolding copy_string_descriptor
  copy_live r s = ground arith

  get_string_descriptor-live :
      (ses : IfSession) (idx lang : ℕ) (s : State W)
      → (get_string_descriptor usb ses idx lang s).1.live
        ≡ s.live + owned (get_string_descriptor usb ses idx lang s).0.1
  unfolding get_string_descriptor
  get_string_descriptor-live ses idx lang s = ground arith

  pub get_configuration_descriptor-live :
      (ses : IfSession) (idx : ℕ) (s : State W)
      → (get_configuration_descriptor usb ses idx s).1.live
        ≡ s.live + owned (get_configuration_descriptor usb ses idx s).0.1
  unfolding get_configuration_descriptor
  get_configuration_descriptor-live ses idx s = ground arith

  get_endpoint_status-live :
      (ses : IfSession) (ep : EpSession) (s : State W)
      → (get_endpoint_status usb ses ep s).1.live ≡ s.live
  unfolding get_endpoint_status
  get_endpoint_status-live ses ep s = ground arith

-- A descriptor with its header in front, and the size that the header gives.
pub record IsWhole (b : Buf) (n : ℕ) : Type 0 where
  pub length : b 0 ≡ config_descriptor_size
  pub type : b 1 ≡ dt_config
  pub size : n ≡ total_length b
  pub room : b 0 < n

module _ {W : Type 0} (usb : Usb W) where
  -- The size is the first reply's, and the first bytes of both replies are the same.
  full_matches :
      (desc : ℕ) (config : Buf) (s : State W) (b : Buf) (n : ℕ)
      → (get_full_configuration_descriptor usb desc config s).0.1 ≡ some (b, n)
      → (n ≡ total_length config) × (same_bytes config_descriptor_size config b ≡ true)
  unfolding get_full_configuration_descriptor same_descriptor
  full_matches desc config s b n e = ground arith

  full-IsWhole :
      (desc : ℕ) (config : Buf) (s : State W) (b : Buf) (n : ℕ)
      → is_config_descriptor config ≡ true
      → (get_full_configuration_descriptor usb desc config s).0.1 ≡ some (b, n)
      → IsWhole b n
  unfolding is_config_descriptor
  full-IsWhole desc config s b n valid e =
      let (size, same) = full_matches desc config s b n e in
      let at : (i : ℕ) → i < 9 → b i ≡ config i = λ i h. same_bytes_at 9 config b i same h in
      record {
        length = ground (arith, at 0 (omega arith));
        type = ground (arith, at 1 (omega arith));
        size = omega (arith, size, at 2 (omega arith), at 3 (omega arith));
        room = ground (arith, size, at 0 (omega arith));
      }

  -- The minimal reply, and the state behind it.
  abbrev minimal : ℕ → State W → CtrlReply × State W
  minimal idx s =
      ctrl_xfer usb (descriptor_setup (dt_config * 2 ^ 8 + idx) 0 config_descriptor_size)
        (alloc usb config_descriptor_size s).1

  comes_from_full :
      (ses : IfSession) (idx : ℕ) (s : State W) (b : Buf) (n : ℕ)
      → (get_configuration_descriptor usb ses idx s).0.1 ≡ some (b, n)
      → (is_config_descriptor (minimal idx s).0.reply ≡ true)
        × ((get_full_configuration_descriptor usb
              (dt_config * 2 ^ 8 + idx)
              (minimal idx s).0.reply
              (minimal idx s).1).0.1
            ≡ some (b, n))
  unfolding get_configuration_descriptor
  comes_from_full ses idx s b n e = ground arith

-- A configuration descriptor that is handed out has the length and the type of one in front, and
-- the size that goes with it is the total length that its own bytes give, which is larger.
pub get_configuration_descriptor-IsWhole :
    {W : Type 0} (usb : Usb W) (ses : IfSession) (idx : ℕ) (s : State W) (b : Buf) (n : ℕ)
    → (get_configuration_descriptor usb ses idx s).0.1 ≡ some (b, n)
    → IsWhole b n
get_configuration_descriptor-IsWhole usb ses idx s b n e =
    let (valid, full) = comes_from_full usb ses idx s b n e in
    full-IsWhole usb (dt_config * 2 ^ 8 + idx) (minimal usb idx s).0.reply (minimal usb idx s).1 b n
      valid full

-- On every path a request frees what it allocated, but for the descriptor that it hands out: the
-- caller owns one block more if there is one, and none otherwise.
pub request_memory_lem :
    {W : Type 0} (usb : Usb W) (ses : IfSession) (ep : EpSession) (idx str lang : ℕ) (s : State W)
    → ((get_max_logical_units usb ses s).1.live ≡ s.live)
      × ((get_endpoint_status usb ses ep s).1.live ≡ s.live)
      × ((get_configuration_descriptor usb ses idx s).1.live
          ≡ s.live + owned (get_configuration_descriptor usb ses idx s).0.1)
      × ((get_string_descriptor usb ses str lang s).1.live
          ≡ s.live + owned (get_string_descriptor usb ses str lang s).0.1)
request_memory_lem usb ses ep idx str lang s = (
  get_max_logical_units-live usb ses s,
  get_endpoint_status-live usb ses ep s,
  get_configuration_descriptor-live usb ses idx s,
  get_string_descriptor-live usb ses str lang s,
)

max_lun_le : (x : ℕ) → max_lun_of_reply x ≤ ums_max_lun
unfolding max_lun_of_reply
max_lun_le x = ground arith

max_lun_zero : (x : ℕ) → (max_lun_of_reply x == 0) ≡ (x % 256 == 255)
unfolding max_lun_of_reply
max_lun_zero x = elim (Bool-cases (x % 256 == 255)) [
  | inl e ↦ rw e (ground arith)
  | inr e ↦ rw e (ground arith)
]

-- The number of logical units is at most 16, and it is 0 exactly if the device's reply is 255.
pub get_max_logical_units-le :
    {W : Type 0} (usb : Usb W) (ses : IfSession) (s : State W) (n : ℕ)
    → (get_max_logical_units usb ses s).0.1 ≡ some n
    → (n ≤ ums_max_lun)
      × ((n == 0) ≡ (
          (ctrl_xfer usb
                (setup
                  (request_type endpoint_in request_type_class recipient_interface)
                  request_bot_get_max_lun
                  0
                  ses.interface_number
                  1)
                (alloc usb 1 s).1).0.reply
              0
            % 256
          == 255))
unfolding get_max_logical_units
get_max_logical_units-le usb ses s n e =
    let x =
      (ctrl_xfer usb
          (setup (request_type endpoint_in request_type_class recipient_interface)
            request_bot_get_max_lun 0 ses.interface_number 1)
          (alloc usb 1 s).1).0.reply
        0 in
    let value : n ≡ max_lun_of_reply x = ground arith in
    (omega (arith, value, max_lun_le x), rw value (max_lun_zero x))
