-- ===== src/Examples/Heard.antt =====
-- Doing lines, and rows that were heard.
use cases.Prelude.{ℕ, true, false, ◌≡◌, refl, none, some, List, ◌++◌, codes, all, arith}
use cases.Prelude.Int.{pos, leb_ℤ, ◌+ℤ◌, ◌-ℤ◌}
use cases.Error.{ok, err, invalid}
use cases.Rules.Fields.{is_white_space}
use cases.Time.{Time}
use cases.Time.Calendar.{scale}
use cases.Listening.{
  doing_line, trim, trim_start, trim_end, leaves_line, heard_in_time, before, nanos_of, duration_le,
}
use cases.Listening.Lines.{IsLine, doing_line-IsLine, doing_line_kept}
use cases.Listening.Lapse.{heard_in_time_lem}

trimmed : doing_line (codes " building \n") ≡ ok (some (codes "building"))
unfolding doing_line trim trim_start trim_end leaves_line
trimmed = refl

two_lines : doing_line (codes "a\nb") ≡ err invalid
unfolding doing_line trim trim_start trim_end leaves_line
two_lines = refl

cleared : doing_line (codes "  ") ≡ ok none
unfolding doing_line trim trim_start trim_end leaves_line
cleared = refl

doing_line-IsLine_example :
    IsLine (codes "building")
    × ((front : List ℕ) × (back : List ℕ) × (codes " building \n"
          ≡ front ++ (codes "building" ++ back))
        × (all is_white_space front ≡ true)
        × (all is_white_space back ≡ true))
doing_line-IsLine_example = doing_line-IsLine (codes " building \n") trimmed

doing_line_kept_example : doing_line (codes "building") ≡ ok (some (codes "building"))
doing_line_kept_example =
    doing_line_kept (codes "building") (doing_line-IsLine (codes " building \n") trimmed).0

abbrev noon : Time
noon = record { secs = pos 1789462860; nanos = 5 }

abbrev lapsed : Time
lapsed = record { secs = pos 1789462905; nanos = 6 }

late : heard_in_time noon lapsed ≡ false
unfolding heard_in_time before nanos_of duration_le scale ◌+ℤ◌ ◌-ℤ◌
late = refl

heard_in_time_lem_example :
    heard_in_time noon lapsed ≡ leb_ℤ (nanos_of lapsed) (nanos_of noon +ℤ pos 45000000000)
heard_in_time_lem_example =
    heard_in_time_lem noon lapsed (record { low = refl; high = refl; nanos = omega arith })
      (record { low = refl; high = refl; nanos = omega arith })
