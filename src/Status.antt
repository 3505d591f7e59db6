-- ===== src/Status.antt =====
-- The `efi::Status` codes that the modelled functions return, and `Result<T, efi::Status>`.
pub use crab_efi.Prelude.{Fallible, ok, err, guard, ◌>>=◌, ◌>>◌, result-cases, bind_inverted}
use crab_efi.Prelude.{Option, none, some}

pub data Status : Type 0 where
  success invalid_parameter unsupported out_of_resources not_found : Status
  buffer_too_small already_started access_denied not_ready device_error : Status
  write_protected media_changed bad_buffer_size end_of_file : Status

abbrev pub Result : Type 0 → Type 0
Result A = Fallible Status A

-- `Option::ok_or`
abbrev pub ok_or : {A : Type 0} → Option A → Status → Result A
ok_or none e = err e
ok_or (some a) e = ok a
