-- ===== src/Terminal/Options.antt =====
-- hub/internal/terminal/options.go. A duration is a number of nanoseconds.
use visual_tmux_client.Prelude.{ℕ, ◌*◌}
use visual_tmux_client.Prelude.Int.{ℤ, pos}

pub record Options : Type 0 where
  pub max_dimension : ℤ
  pub staging_buffer_bytes : ℤ
  pub output_high_water_bytes : ℕ
  pub output_low_water_bytes : ℕ
  pub backpressure_poll_interval : ℕ
  pub control_write_timeout : ℕ
  pub output_write_timeout : ℕ
  pub exit_write_timeout : ℕ
  pub input_chunk_size : ℤ

abbrev pub second : ℕ
second = 1_000_000_000

abbrev pub default_options : Options
default_options = record {
  max_dimension = pos 1000;
  staging_buffer_bytes = pos 2_097_152;
  output_high_water_bytes = 1_048_576;
  output_low_water_bytes = 131_072;
  backpressure_poll_interval = 100_000_000;
  control_write_timeout = 5 * second;
  output_write_timeout = 10 * second;
  exit_write_timeout = 3 * second;
  input_chunk_size = pos 32_768;
}
