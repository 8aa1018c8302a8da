-- ===== src/Listening/Lapse.antt =====
-- crates/core/src/listening.rs: when a row that was heard still counts.
use cases.Prelude.{ℕ, ◌+◌, ◌*◌, ◌^◌, ◌<◌, ◌≤◌, true, ◌≡◌, ◌∙◌, arith}
use cases.Prelude.Int.{ℤ, pos, negsuc, pos_part, neg_part, leb_ℤ, ◌+ℤ◌, ◌-ℤ◌}
use cases.Time.{Time, min_secs, max_secs}
use cases.Time.Calendar.{scale}
use cases.Listening.{
  duration_le, duration_of, second, lapse, nanos_of, before, is_none_or, heard_in_time,
}

-- The years 0000 to 9999, as `Time::from_unix` makes a time.
pub record IsInRange (t : Time) : Type 0 where
  pub low : leb_ℤ min_secs t.secs ≡ true
  pub high : leb_ℤ t.secs max_secs ≡ true
  pub nanos : t.nanos < 1000000000

within_lapse :
    (d : ℤ)
    → pos_part d < 2 ^ 64 * 1000000000
    → is_none_or (λ ago. duration_le ago (record { secs = lapse; nanos = 0 })) (duration_of d)
      ≡ leb_ℤ d (pos 45000000000)
unfolding duration_le
within_lapse (pos d) h = ground arith
within_lapse (negsuc d) h = ground arith

nanos_bounds :
    (secs : ℤ) (nanos : ℕ)
    → leb_ℤ min_secs secs ≡ true
    → leb_ℤ secs max_secs ≡ true
    → nanos < 1000000000
    → (pos_part (scale secs second +ℤ pos nanos) ≤ 253402300800000000000)
      × (neg_part (scale secs second +ℤ pos nanos) ≤ 62167219200000000000)
unfolding scale ◌+ℤ◌ ◌-ℤ◌
nanos_bounds (pos n) nanos low high small = (ground arith, ground arith)
nanos_bounds (negsuc n) nanos low high small = (ground arith, ground arith)

-- The nanoseconds of a time lie within the range of its seconds.
nanos_of_bounds :
    (t : Time)
    → IsInRange t
    → (pos_part (nanos_of t) ≤ 253402300800000000000)
      × (neg_part (nanos_of t) ≤ 62167219200000000000)
unfolding nanos_of
nanos_of_bounds t r = nanos_bounds t.secs t.nanos r.low r.high r.nanos

sub-le : (a b : ℤ) (c : ℕ) → leb_ℤ (a -ℤ b) (pos c) ≡ leb_ℤ a (b +ℤ pos c)
unfolding ◌+ℤ◌ ◌-ℤ◌
sub-le a b c = ground arith

sub_bound : (a b : ℤ) → pos_part (a -ℤ b) ≤ pos_part a + neg_part b
unfolding ◌-ℤ◌
sub_bound a b = ground arith

-- Between times in the years 0000 to 9999, what was heard counts exactly up to 45 seconds later,
-- to the nanosecond, and at any time before it.
pub heard_in_time_lem :
    (heard now : Time)
    → IsInRange heard
    → IsInRange now
    → heard_in_time heard now ≡ leb_ℤ (nanos_of now) (nanos_of heard +ℤ pos 45000000000)
unfolding heard_in_time before
heard_in_time_lem heard now r s =
    let small : pos_part (nanos_of now -ℤ nanos_of heard) < 2 ^ 64 * 1000000000 = omega (
      arith,
      sub_bound (nanos_of now) (nanos_of heard),
      nanos_of_bounds heard r,
      nanos_of_bounds now s,
    ) in
    within_lapse (nanos_of now -ℤ nanos_of heard) small
    ∙ sub-le (nanos_of now) (nanos_of heard) 45000000000
