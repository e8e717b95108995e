-- ===== src/Wal/Checkpoint.antt =====
-- core/src/wal/checkpoint.rs and position.rs: positions in the log.
use litesdb.Base.{ℕ, ◌==◌, ◌||◌, Result, ok, ◌>>◌, fail_if, ltb, corruption}

pub record DurablePosition : Type 0 where
  pub seq : ℕ
  pub segment : ℕ
  pub offset : ℕ

pub record Checkpoint : Type 0 where
  pub segment_first_seq : ℕ
  pub offset : ℕ
  pub next_seq : ℕ

-- `SEGMENT_HEADER_BYTES`
abbrev pub segment_header_bytes : ℕ
segment_header_bytes = 32

-- `Checkpoint::new`
unfoldable pub new_checkpoint : ℕ → ℕ → ℕ → Result Checkpoint
new_checkpoint segment_first_seq offset next_seq = do
  fail_if (next_seq == 0 || ltb next_seq segment_first_seq || ltb offset segment_header_bytes)
      (corruption "WAL checkpoint" "sequence or offset relationship is invalid")
  ok (record { segment_first_seq = segment_first_seq; offset = offset; next_seq = next_seq })
