-- ===== src/Keyboard/Timer.antt =====
-- src/time.rs: a time out is the value of the time stamp counter at its end. The counter's readings
-- are parameters, as is the number of its cycles in a microsecond.
use crab_efi.Prelude.{ℕ, ◌*◌, ◌%◌, ◌^◌, Bool, ◌||◌, ◌==◌, leb, u64_mod, add64, sub64}

pub record Timeout : Type 0 where
  pub deadline : ℕ

unfoldable pub from_us : ℕ → ℕ → ℕ → Timeout
from_us cycles_per_us now us = record { deadline = add64 now (us * cycles_per_us % u64_mod) }

abbrev pub from_ms : ℕ → ℕ → ℕ → Timeout
from_ms cycles_per_us now ms = from_us cycles_per_us now (ms * 1000 % u64_mod)

-- The difference is read as an `i64`, which is negative from 2 ^ 63 on.
unfoldable pub is_expired : Timeout → ℕ → Bool
is_expired t now = let diff = sub64 t.deadline now in diff == 0 || leb (2 ^ 63) diff
