-- ===== src/Certs/Serial.antt =====
-- cmd/epoxy_certs/main.go: getSerialNumber.
use epoxy.Base.{ℕ, ◌+◌, ◌*◌, ◌≤◌, ◌<◌, Str, ◌≡◌, refl, sym, ◌∙◌, ap, [], ◌++◌, Outcome, ok, arith}
use epoxy.Base.Exec.{Exec, lift}
use epoxy.Go.Decimal.{padded, parse_int, parse_digits}
use epoxy.Go.Decimal.Padded.{parse_digits-padded, parse_int-parse_digits}
use epoxy.Certs.System.{Civil, System, Stop, must}

-- fmt.Sprintf("%04d%02d%02d%02d%02d%02d", ...)
unfoldable pub serial_str : Civil → Str
serial_str c =
    padded 4 c.year
    ++ (padded 2 c.month
        ++ (padded 2 c.day
            ++ (padded 2 c.hour ++ (padded 2 c.minute ++ (padded 2 c.second ++ [])))))

unfoldable pub get_serial_number :
    {W Time Duration Ip Parsed PrivateKey : Type 0}
    → System W Time Duration Ip Parsed PrivateKey
    → Exec W Stop ℕ
get_serial_number sys w =
    let (t, w') = sys.now w in must (lift (parse_int (serial_str (sys.civil t)))) w'

-- What package time documents of a date in the proleptic Gregorian calendar, up to the year 9999.
pub record IsCivil (c : Civil) : Type 0 where
  pub year_fits : c.year ≤ 9999
  pub month_starts : 1 ≤ c.month
  pub month_fits : c.month ≤ 12
  pub day_fits : c.day ≤ 31
  pub hour_fits : c.hour ≤ 23
  pub minute_fits : c.minute ≤ 59
  pub second_fits : c.second ≤ 59

-- YYYYMMDDhhmmss as a number.
abbrev pub serial_of : Civil → ℕ
serial_of c =
    ((((c.year * 100 + c.month) * 100 + c.day) * 100 + c.hour) * 100 + c.minute) * 100 + c.second

two_digits :
    (n value : ℕ) (rest : Str)
    → n < 100
    → parse_digits value (padded 2 n ++ rest) ≡ parse_digits (value * 100 + n) rest
two_digits n value rest fits =
    parse_digits-padded 1 n value rest fits ∙ ap (λ m. parse_digits m rest) (omega arith)

four_digits :
    (n : ℕ) (rest : Str) → n < 10000 → parse_digits 0 (padded 4 n ++ rest) ≡ parse_digits n rest
four_digits n rest fits =
    parse_digits-padded 3 n 0 rest fits ∙ ap (λ m. parse_digits m rest) (omega arith)

serial_str_read : (c : Civil) → IsCivil c → parse_digits 0 (serial_str c) ≡ ok (serial_of c)
unfolding serial_str parse_digits
serial_str_read c fits =
    four_digits c.year _ (omega arith)
    ∙ two_digits c.month _ _ (omega arith)
    ∙ two_digits c.day _ _ (omega arith)
    ∙ two_digits c.hour _ _ (omega arith)
    ∙ two_digits c.minute _ _ (omega arith)
    ∙ two_digits c.second _ [] (omega arith)

same_value : (m n : ℕ) → ◌≡◌ {A = Outcome Stop ℕ} (ok m) (ok n) → m ≡ n
same_value m n e = cc

module _ (c : Civil) (fits : IsCivil c) where
  serial_of-bounds : (1 ≤ serial_of c) × (serial_of c < 100_000_000_000_000)
  serial_of-bounds = (omega arith, omega arith)

  serial_str_parsed : parse_int (serial_str c) ≡ ok (serial_of c)
  serial_str_parsed =
      parse_int-parse_digits (serial_str c) (serial_of c) (serial_str_read c fits) (omega arith)
        (omega arith)

  serial_of-injective : (d : Civil) → IsCivil d → serial_of d ≡ serial_of c → d ≡ c
  serial_of-injective d also same =
      let second : d.second ≡ c.second = omega arith in
      let minute : d.minute ≡ c.minute = omega arith in
      let hour : d.hour ≡ c.hour = omega arith in
      let day : d.day ≡ c.day = omega arith in
      let month : d.month ≡ c.month = omega arith in
      let year : d.year ≡ c.year = omega arith in
      λ i. record {
        year = year i;
        month = month i;
        day = day i;
        hour = hour i;
        minute = minute i;
        second = second i;
      }

module _ {W Time Duration Ip Parsed PrivateKey : Type 0}
    (sys : System W Time Duration Ip Parsed PrivateKey) where
  abbrev pub clock : W → Civil
  clock w = sys.civil (sys.now w).0

  -- At a date and a time of the calendar before the year 10000, a serial number is given: the decimal
  -- digits of the date and the time, as a positive number below 10^14, which an int64 holds.
  pub get_serial_number_lem :
      (w : W)
      → IsCivil (clock w)
      → (get_serial_number sys w ≡ (ok (serial_of (clock w)), (sys.now w).1))
        × (1 ≤ serial_of (clock w))
        × (serial_of (clock w) < 100_000_000_000_000)
  unfolding get_serial_number
  get_serial_number_lem w fits =
      let bounds = serial_of-bounds (clock w) fits in
      (rw (serial_str_parsed (clock w) fits) refl, bounds.0, bounds.1)

  -- Two calls that give the same serial number were made in the same second of the calendar, before
  -- the year 10000.
  get_serial_number-injective :
      (v w : W) (n : ℕ)
      → IsCivil (clock v)
      → IsCivil (clock w)
      → (get_serial_number sys v).0 ≡ ok n
      → (get_serial_number sys w).0 ≡ ok n
      → clock v ≡ clock w
  get_serial_number-injective v w n fits also one other =
      let known = ap (λ r. r.0) (get_serial_number_lem v fits).0 in
      let known' = ap (λ r. r.0) (get_serial_number_lem w also).0 in
      let same = same_value _ _ (sym known ∙ one ∙ sym other ∙ known') in
      serial_of-injective (clock w) also (clock v) fits same
