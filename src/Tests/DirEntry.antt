-- ===== src/Tests/DirEntry.antt =====
-- A time stamp and the attributes of a directory.
use recoverx_cli.Prelude.{◌+◌, ◌≡◌, refl, true, false, arith, if◌then◌else◌}
use recoverx_cli.Fat32.DirEntry.{
  FatTimestamp, FatAttributes, parse_timestamp, parse_attributes, attribute_byte, date_word,
  time_word, FitsWords, parse_timestamp-words, parse_attributes-attribute_byte, has_bit,
}

-- 2024-02-29 23:59:58
abbrev leap_day : FatTimestamp
leap_day = record { year = 2024; month = 2; day = 29; hour = 23; minute = 59; second = 58 }

leap_day-FitsWords : FitsWords leap_day
leap_day-FitsWords = record {
  first_year = omega arith;
  last_year = omega arith;
  month = omega arith;
  day = omega arith;
  hour = omega arith;
  minute = omega arith;
  second = omega arith;
  even = refl;
}

parse_timestamp-words_example : parse_timestamp (date_word leap_day) (time_word leap_day) ≡ leap_day
parse_timestamp-words_example = parse_timestamp-words leap_day leap_day-FitsWords

abbrev hidden_directory : FatAttributes
hidden_directory = record {
  read_only = false;
  hidden = true;
  system = false;
  volume_label = false;
  subdirectory = true;
  archive = false;
  device = false;
}

parses_attributes : parse_attributes 0x12 ≡ hidden_directory
unfolding parse_attributes has_bit
parses_attributes = refl

parse_attributes-attribute_byte_example :
    parse_attributes (attribute_byte hidden_directory + (if true then 128 else 0))
    ≡ hidden_directory
parse_attributes-attribute_byte_example = parse_attributes-attribute_byte hidden_directory true
