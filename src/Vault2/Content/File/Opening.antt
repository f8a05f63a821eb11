-- ===== src/Vault2/Content/File/Opening.antt =====
-- The state of an open file, and opening or creating one.
use desktop_folder_locker.Common.{
  ℕ, not, Bool, true, false, Option, none, some, [], ◌∷◌, ◌++◌, take, drop, get_or, eq_bytes, ltb,
  ◌==◌, if◌then◌else◌,
}
use desktop_folder_locker.Vault2.Error.{
  Result, ok, err, Error, corrupt, io, IoError, ErrorKind, from_io, Action,
}
use desktop_folder_locker.Vault2.Crypto.{Bytes}
use desktop_folder_locker.Vault2.Content.Disk.{Disk, read_exact_at}
use desktop_folder_locker.Vault2.Content.Codec.{header_len}

pub record State : Type 0 where
  pub disk : Disk
  pub writable : Bool
  -- `none` while the file is empty: it has no header then.
  pub id : Option Bytes
  pub stored_len : ℕ
  pub reopen : Option IoError
  pub draws : ℕ

-- The answer of the operating system to opening a path.
pub data Opened : Type 0 where
  opened : Disk → Opened
  failed : IoError → Opened

abbrev pub magic : Bytes
magic = b'F' ∷ b'L' ∷ b'F' ∷ b'2' ∷ []

abbrev pub version : ℕ
version = 1

abbrev pub file_id_len : ℕ
file_id_len = 24

abbrev pub i64_max : ℕ
i64_max = 9223372036854775807

abbrev pub header_of : Bytes → Bytes
header_of id = magic ++ (version ∷ 0 ∷ 0 ∷ 0 ∷ id)

unfoldable pub too_large : Error
too_large = io (record { kind = ErrorKind.invalid_input; raw_os_error = none })

-- The checks of a header: its file id.
unfoldable pub parse_header : Bytes → Result Bytes
parse_header header =
    if not (eq_bytes (take 4 header) magic)
    then err (corrupt "a file has a damaged header")
    else if not (get_or header 4 0 == version)
    then err (corrupt "a file was written by a newer version of Cloak")
    else ok (drop 8 header)

-- Shorter than a header: a write was cut off before any data.
unfoldable pub from_file : Disk → Bool → Option IoError → ℕ → Result State
from_file d writable reopen draws =
    let with_id : Option Bytes → State = λ id. record {
      disk = d;
      writable = writable;
      id = id;
      stored_len = d.len;
      reopen = reopen;
      draws = draws;
    } in
    if ltb d.len header_len then ok (with_id none) else elim (read_exact_at d 0 header_len) [
      | err e ↦ err e
      | ok header ↦ elim (parse_header header) [ err e ↦ err e | ok id ↦ ok (with_id (some id)) ]
    ]

-- `ContentFile::open`: for writing if the file allows it, or else for reading.
unfoldable pub open_file : Opened → Opened → Option IoError → ℕ → Result State
open_file (opened d) reading reopen draws = from_file d true reopen draws
open_file (failed e) reading reopen draws = elim e.kind [
  | ErrorKind.not_found ↦ err Error.not_found
  | _ ↦ elim reading [ opened d ↦ from_file d false reopen draws | failed _ ↦ err (from_io e) ]
]

-- `ContentFile::create`: the operating system's answer to creating a new file.
unfoldable pub create : Opened → Option IoError → ℕ → Result State
create (opened d) reopen draws = from_file d true reopen draws
create (failed e) reopen draws = err (from_io e)

unfoldable pub make_writable : Action State (Unit {0})
make_writable st = if st.writable then (ok tt, st) else elim st.reopen [
  | none ↦ (ok tt, record st { writable = true })
  | some e ↦ (err (from_io e), st)
]
