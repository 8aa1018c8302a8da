-- ===== src/Replay/Appending.antt =====
-- crates/core/src/case.rs: `Case::append`.
use cases.Prelude.{ℕ, ◌+◌, ◌%◌, Option, true}
use cases.Time.{Time}
use cases.Record.{Actor}
use cases.Record.Codec.{Codec}
use cases.Case.{Row, Append}
use cases.Act.{Act, Taken, lift, get, modify, pure, ◌>>=◌, ◌>>◌}
use cases.Replay.Taking.{take}
use cases.Replay.Writing.{u64_mod, next_seq, check_revision, stamp, new_row}

-- `self.revision += 1; self.last_seq = seq;`
unfoldable pub count_row : ℕ → Taken
count_row seq = modify (λ c. record c { revision = (c.revision + 1) % u64_mod; last_seq = seq })

module _ (k : Codec) where
  unfoldable pub append_event : Append → Time → Option Actor → Option ℕ → Act Row
  unfolding count_row
  append_event append now writer at_revision = do
    c ← get
    lift (check_revision at_revision c.revision)
    p ← lift (stamp k append now writer)
    seq ← lift (next_seq c.last_seq)
    let row = new_row k seq p.0 p.1
    take seq p.0 p.1 row.text true
    count_row seq
    pure row
