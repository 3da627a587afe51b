-- ===== src/Pulse.antt =====
-- The pulse structures of include/nan_pulse.h: the writer that overwrites its oldest signals here, and
-- below it the signal buffer and the analyzer of pulse streams.
pub mod Buffer
pub mod Flow
pub mod Levels
pub mod Totals
mod Tests
use optimized_nan_lang.Base.{length, set, replicate, Bytes, ℕ, ◌+◌, ◌*◌, ◌%◌, ◌^◌}

pub record AsyncPulseEmitter : Type 0 where
  pub cache_buf : Bytes
  pub write_pos : ℕ

-- `sizeof(cache_buf)`: sixteen lines of 64 bytes.
abbrev pub cache_size : ℕ
cache_size = 64 * 16

abbrev pub new_emitter : AsyncPulseEmitter
new_emitter = record { cache_buf = replicate cache_size 0; write_pos = 0 }

-- The position is a `size_t`.
unfoldable pub emit : ℕ → AsyncPulseEmitter → AsyncPulseEmitter
emit signal e = record e {
  cache_buf = set e.cache_buf (e.write_pos % cache_size) signal;
  write_pos = (e.write_pos + 1) % 2 ^ 64;
}

unfoldable pub flush : AsyncPulseEmitter → AsyncPulseEmitter
flush e = record e { cache_buf = replicate (length e.cache_buf) 0; write_pos = 0 }
