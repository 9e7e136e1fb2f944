-- ===== src/Fat32/DirEntry.antt =====
-- fat32/directory.py and structures.py: the time stamps and attributes of a directory entry.
use recoverx_cli.Prelude.{
  ℕ, ◌+◌, ◌-◌, ◌*◌, ◌/◌, ◌%◌, ◌^◌, ◌≤◌, ◌<◌, ◌≡◌, refl, Bool, true, false, arith, ◌==◌,
  if◌then◌else◌,
}

pub record FatTimestamp : Type 0 where
  pub year : ℕ
  pub month : ℕ
  pub day : ℕ
  pub hour : ℕ
  pub minute : ℕ
  pub second : ℕ

unfoldable pub parse_timestamp : ℕ → ℕ → FatTimestamp
parse_timestamp date_word time_word = record {
  year = date_word / 2 ^ 9 % 2 ^ 7 + 1980;
  month = date_word / 2 ^ 5 % 2 ^ 4;
  day = date_word % 2 ^ 5;
  hour = time_word / 2 ^ 11 % 2 ^ 5;
  minute = time_word / 2 ^ 5 % 2 ^ 6;
  second = time_word % 2 ^ 5 * 2;
}

unfoldable pub parse_date_only : ℕ → FatTimestamp
parse_date_only date_word = record {
  year = date_word / 2 ^ 9 % 2 ^ 7 + 1980;
  month = date_word / 2 ^ 5 % 2 ^ 4;
  day = date_word % 2 ^ 5;
  hour = 0;
  minute = 0;
  second = 0;
}

pub record FatAttributes : Type 0 where
  pub read_only : Bool
  pub hidden : Bool
  pub system : Bool
  pub volume_label : Bool
  pub subdirectory : Bool
  pub archive : Bool
  pub device : Bool

-- `bool(byte & (1 << n))`
unfoldable pub has_bit : ℕ → ℕ → Bool
has_bit n byte = byte / 2 ^ n % 2 == 1

unfoldable pub parse_attributes : ℕ → FatAttributes
parse_attributes attr_byte = record {
  read_only = has_bit 0 attr_byte;
  hidden = has_bit 1 attr_byte;
  system = has_bit 2 attr_byte;
  volume_label = has_bit 3 attr_byte;
  subdirectory = has_bit 4 attr_byte;
  archive = has_bit 5 attr_byte;
  device = has_bit 6 attr_byte;
}

-- `FATAttributes.byte`: the bits are different, so that `|=` adds them.
unfoldable pub attribute_byte : FatAttributes → ℕ
attribute_byte a =
    (if a.read_only then 1 else 0)
    + (if a.hidden then 2 else 0)
    + (if a.system then 4 else 0)
    + (if a.volume_label then 8 else 0)
    + (if a.subdirectory then 16 else 0)
    + (if a.archive then 32 else 0)
    + (if a.device then 64 else 0)

digit : Bool → ℕ
digit b = if b then 1 else 0

scaled : (k : ℕ) (b : Bool) → (if b then k else 0) ≡ k * digit b
unfolding digit
scaled k true = omega arith
scaled k false = omega arith

digit_bound : (b : Bool) → digit b < 2
unfolding digit
digit_bound true = omega arith
digit_bound false = omega arith

digit-has_bit : (n byte : ℕ) (b : Bool) → byte / 2 ^ n % 2 ≡ digit b → has_bit n byte ≡ b
unfolding has_bit digit
digit-has_bit n byte true h = rw h refl
digit-has_bit n byte false h = rw h refl

byte_of_digits : ℕ → ℕ → ℕ → ℕ → ℕ → ℕ → ℕ → ℕ → ℕ
byte_of_digits a b c d e f g h = a + 2 * b + 4 * c + 8 * d + 16 * e + 32 * f + 64 * g + 128 * h

attribute_byte_lem :
    (a : FatAttributes) (top : Bool)
    → attribute_byte a + (if top then 128 else 0)
      ≡ byte_of_digits
          (digit a.read_only)
          (digit a.hidden)
          (digit a.system)
          (digit a.volume_label)
          (digit a.subdirectory)
          (digit a.archive)
          (digit a.device)
          (digit top)
unfolding attribute_byte byte_of_digits
attribute_byte_lem a top = omega (
  arith,
  scaled 1 a.read_only,
  scaled 2 a.hidden,
  scaled 4 a.system,
  scaled 8 a.volume_label,
  scaled 16 a.subdirectory,
  scaled 32 a.archive,
  scaled 64 a.device,
  scaled 128 top,
)

-- The attributes are read back from their byte, and the top bit, if it is set, changes nothing.
pub parse_attributes-attribute_byte :
    (a : FatAttributes) (top : Bool)
    → parse_attributes (attribute_byte a + (if top then 128 else 0)) ≡ a
unfolding parse_attributes byte_of_digits
parse_attributes-attribute_byte a top =
    let r = digit_bound a.read_only in
    let h = digit_bound a.hidden in
    let s = digit_bound a.system in
    let v = digit_bound a.volume_label in
    let d = digit_bound a.subdirectory in
    let c = digit_bound a.archive in
    let e = digit_bound a.device in
    let byte =
      byte_of_digits (digit a.read_only) (digit a.hidden) (digit a.system) (digit a.volume_label)
        (digit a.subdirectory) (digit a.archive) (digit a.device) (digit top) in
    rw (attribute_byte_lem a top) (λ i. record {
      read_only = digit-has_bit 0 byte a.read_only (omega (arith, r)) i;
      hidden = digit-has_bit 1 byte a.hidden (omega (arith, r, h)) i;
      system = digit-has_bit 2 byte a.system (omega (arith, r, h, s)) i;
      volume_label = digit-has_bit 3 byte a.volume_label (omega (arith, r, h, s, v)) i;
      subdirectory = digit-has_bit 4 byte a.subdirectory (omega (arith, r, h, s, v, d)) i;
      archive = digit-has_bit 5 byte a.archive (omega (arith, r, h, s, v, d, c)) i;
      device = digit-has_bit 6 byte a.device (omega (arith, r, h, s, v, d, c, e)) i;
    })

-- The words of a time stamp: its date and its time of day.
unfoldable pub date_word : FatTimestamp → ℕ
date_word t = (t.year - 1980) * 512 + t.month * 32 + t.day

unfoldable pub time_word : FatTimestamp → ℕ
time_word t = t.hour * 2048 + t.minute * 32 + t.second / 2

-- A time stamp whose fields fit: a year from 1980 to 2107, and an even number of seconds.
pub record FitsWords (t : FatTimestamp) : Type 0 where
  pub first_year : 1980 ≤ t.year
  pub last_year : t.year < 2108
  pub month : t.month < 16
  pub day : t.day < 32
  pub hour : t.hour < 32
  pub minute : t.minute < 64
  pub second : t.second < 64
  pub even : t.second % 2 ≡ 0

timestamp_of_fields :
    (t u : FatTimestamp)
    → t.year ≡ u.year
    → t.month ≡ u.month
    → t.day ≡ u.day
    → t.hour ≡ u.hour
    → t.minute ≡ u.minute
    → t.second ≡ u.second
    → t ≡ u
timestamp_of_fields t u a b c d e f =
    λ i. record { year = a i; month = b i; day = c i; hour = d i; minute = e i; second = f i }

-- A time stamp whose fields fit is read back from its words.
pub parse_timestamp-words :
    (t : FatTimestamp) → FitsWords t → parse_timestamp (date_word t) (time_word t) ≡ t
unfolding parse_timestamp date_word time_word
parse_timestamp-words t fits =
    timestamp_of_fields _ t (omega (arith, fits.first_year, fits.last_year, fits.month, fits.day))
      (omega (arith, fits.month, fits.day)) (omega (arith, fits.month, fits.day))
      (omega (arith, fits.hour, fits.minute, fits.second)) (omega (arith, fits.minute, fits.second))
      (omega (arith, fits.second, fits.even))
