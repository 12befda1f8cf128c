-- ===== src/Tests/Ranges.antt =====
-- Numbers and the Range header.
use mimino.Base.{◌≡◌, true, false, refl, inl, arith, codes, strncmp_eq}
use mimino.Ascii.{is_digit}
use mimino.Http.Number.{ll_power}
use mimino.Http.Range.{Ranges, parse_range_header}
use mimino.Http.Range.Forms.{IsNumber, parse_range_header_forms, parse_range_header_other}

-- The power that the header comment promises is not the one for a base of 0.
ll_power_zero : ll_power 0 0 ≡ 0
unfolding ll_power
ll_power_zero = refl

abbrev unset : Ranges
unset = record {
  range_start_given = false;
  range_start = 0;
  range_end_given = false;
  range_end = 0;
}

number : IsNumber (codes "10")
unfolding is_digit
number = record { digits = (refl, (refl, tt)); some_digit = omega arith; short = omega arith }

parse_range_header_forms_example :
    (parse_range_header (codes "bytes=10-10\r\n") 11 unset ≡ (
      record { range_start_given = true; range_start = 10; range_end_given = true; range_end = 10 },
      true,
    ))
    × (parse_range_header (codes "bytes=10-\r\n") 9 unset
        ≡ (record unset { range_start_given = true; range_start = 10 }, false))
    × (parse_range_header (codes "bytes=-10\r\n") 9 unset
        ≡ (record unset { range_end_given = true; range_end = 10 }, true))
parse_range_header_forms_example =
    parse_range_header_forms (codes "10") (codes "10") (codes "\r\n") unset number number
      (unfold is_digit in refl)

parse_range_header_other_example :
    parse_range_header (codes "lines=1-2\r\n") 9 unset ≡ (unset, false)
unfolding strncmp_eq
parse_range_header_other_example =
    parse_range_header_other (codes "lines=1-2\r\n") 9 unset (inl refl)
