-- ===== src/Utils.antt =====
-- source/usbhsfs_utils.c: the string helpers. A C string is the list of its bytes before the NUL.
pub mod Trim
use libusbhsfs.Base.{
  ℕ, zero, suc, Bool, true, false, ◌&&◌, ◌||◌, List, [], ◌∷◌, ◌==◌, leb, if◌then◌else◌, length,
  get_or, take,
}
use libusbhsfs.Bytes.{Buf}

-- The `n` bytes at `off`, and the string in front of the first NUL: with `n` bytes, strnlen().
unfoldable pub bytes_at : Buf → ℕ → ℕ → List ℕ
bytes_at b off zero = []
bytes_at b off (suc n) = b off ∷ bytes_at b (suc off) n

unfoldable pub c_string : List ℕ → List ℕ
c_string [] = []
c_string (x ∷ xs) = if x == 0 then [] else x ∷ c_string xs

-- isspace() in the C locale.
unfoldable pub is_space : ℕ → Bool
is_space c = (c == 0x20) || (leb 0x09 c && leb c 0x0d)

-- The loop over `end` in usbHsFsUtilsTrimString(): how many of the first `n` bytes stay.
unfoldable pub kept_length : List ℕ → ℕ → ℕ
unfolding is_space
kept_length str zero = 0
kept_length str (suc n) = if is_space (get_or str n 0) then kept_length str n else suc n

-- The loop over `start`.
unfoldable pub skip_spaces : List ℕ → List ℕ
unfolding is_space
skip_spaces [] = []
skip_spaces (x ∷ xs) = if is_space x then skip_spaces xs else x ∷ xs

unfoldable pub trim_string : List ℕ → List ℕ
unfolding kept_length skip_spaces
trim_string str = skip_spaces (take (kept_length str (length str)) str)

unfoldable pub all_printable : List ℕ → Bool
all_printable [] = true
all_printable (x ∷ xs) = (leb 0x20 x && leb x 0x7e) && all_printable xs

-- usbHsFsUtilsIsAsciiString() of a string and its length.
unfoldable pub is_ascii_string : List ℕ → Bool
unfolding all_printable
is_ascii_string [] = false
is_ascii_string (x ∷ xs) = all_printable (x ∷ xs)
