-- ===== src/Calendar/Text.antt =====
-- Dates as text, in the layout "2006-01-02" of Go's package time, and the order of texts. A text is
-- the list of its bytes. `time.Parse` wants every digit of that layout and refuses a day that its
-- month does not have. The year 0000, which it accepts, lies before day 0 and is refused here; a
-- year past 9999, which `Format` writes with more digits, is not written.
use sajni_api.Prelude.{
  ℕ, ◌+◌, ◌-◌, ◌*◌, ◌/◌, ◌%◌, ◌<◌, ◌≤◌, Bool, true, false, ◌&&◌, Option, none, some, List, [], ◌∷◌,
  ◌==◌, leb, ltb, if◌then◌else◌, ◌≡◌, arith, refl,
}
use sajni_api.Calendar.{date, year, month, day_of_month, month_length}
use sajni_api.Calendar.Months.{month_length_bounds}
use sajni_api.Calendar.Civil.{
  field_bounds, day_in_month, date-fields, year-month_index, month_index-fields, month_index_holds,
  month_index_mono, day_of_month_same,
}

abbrev pub Text : Type 0
Text = List ℕ

-- The last digits of a number.
abbrev two_digits : ℕ → Text → Text
two_digits n rest = (n / 10 % 10 + b'0') ∷ (n % 10 + b'0') ∷ rest

abbrev four_digits : ℕ → Text → Text
four_digits n rest = two_digits (n / 100) (two_digits n rest)

-- `t.Format("2006-01-02")`
unfoldable pub format_date : ℕ → Text
format_date n =
    four_digits (year n) (b'-' ∷ two_digits (month n) (b'-' ∷ two_digits (day_of_month n) []))

abbrev is_digit : ℕ → Bool
is_digit c = leb b'0' c && leb c b'9'

abbrev number2 : ℕ → ℕ → ℕ
number2 a b = (a - b'0') * 10 + (b - b'0')

-- The checks of `time.Parse` on the fields.
unfoldable pub checked_date : ℕ → ℕ → ℕ → Option ℕ
checked_date y m d =
    if leb 1 y && leb 1 m && leb m 12 && leb 1 d && leb d (month_length y m)
    then some (date y m d)
    else none

-- `time.Parse("2006-01-02", text)`
unfoldable pub parse_date : Text → Option ℕ
parse_date (a ∷ b ∷ c ∷ d ∷ p ∷ e ∷ f ∷ q ∷ g ∷ h ∷ []) =
    if is_digit a
      && is_digit b
      && is_digit c
      && is_digit d
      && p == b'-'
      && is_digit e
      && is_digit f
      && q == b'-'
      && is_digit g
      && is_digit h
    then checked_date (number2 a b * 100 + number2 c d) (number2 e f) (number2 g h)
    else none
parse_date _ = none

abbrev pub text_eq : Text → Text → Bool
text_eq [] [] = true
text_eq (x ∷ a) (y ∷ b) = (x == y) && text_eq a b
text_eq _ _ = false

pub text_eq_refl : (a : Text) → text_eq a a ≡ true
text_eq_refl [] = refl
text_eq_refl (x ∷ a) = ground (arith, text_eq_refl a)

-- `a < b` on texts.
unfoldable pub text_ltb : Text → Text → Bool
text_ltb a [] = false
text_ltb [] (y ∷ b) = true
text_ltb (x ∷ a) (y ∷ b) = if ltb x y then true else if x == y then text_ltb a b else false

is_digit_last : (n : ℕ) → is_digit (n % 10 + b'0') ≡ true
is_digit_last n = ground arith

number2_digits : (n : ℕ) → number2 (n / 10 % 10 + b'0') (n % 10 + b'0') ≡ n % 100
number2_digits n = omega arith

-- A date is written and read back, up to the year 9999.
pub parse_date-format_date : (n : ℕ) → year n ≤ 9999 → parse_date (format_date n) ≡ some n
unfolding parse_date format_date
parse_date-format_date n h =
    let bounds = field_bounds n in
    let fits = day_in_month n in
    let y_is : year n / 100 % 100 * 100 + year n % 100 ≡ year n = omega arith in
    let m_is : month n % 100 ≡ month n = omega arith in
    let d_is : day_of_month n % 100 ≡ day_of_month n =
      omega (arith, month_length_bounds (year n) (month n)) in
    simp (is_digit_last, number2_digits, y_is, m_is, d_is)
      (unfold checked_date in
        ground (arith, date-fields n, year-month_index n, month_index_holds n))

lex_two :
    (m n : ℕ) (a b : Text)
    → text_ltb (two_digits m a) (two_digits n b) ≡ (
        if ltb (m % 100) (n % 100)
        then true
        else if m % 100 == n % 100
        then text_ltb a b
        else false)
unfolding text_ltb
lex_two m n a b = ground arith

lex_dash : (a b : Text) → text_ltb (b'-' ∷ a) (b'-' ∷ b) ≡ text_ltb a b
unfolding text_ltb
lex_dash a b = refl

lex_end : text_ltb [] [] ≡ false
unfolding text_ltb
lex_end = refl

small_fields : (n : ℕ) → (month n % 100 ≡ month n) × (day_of_month n % 100 ≡ day_of_month n)
small_fields n =
    let bounds = field_bounds n in
    let fits = day_in_month n in
    let most = month_length_bounds (year n) (month n) in (omega arith, omega arith)

lex_four :
    (m n : ℕ) (a b : Text)
    → m < 10000
    → n < 10000
    → text_ltb (four_digits m a) (four_digits n b)
      ≡ (if ltb m n then true else if m == n then text_ltb a b else false)
lex_four m n a b hm hn = rw (lex_two (m / 100) (n / 100)) (rw (lex_two m n a b) (ground arith))

-- The order of two dates is that of their years, then months, then days of the month.
fields_order :
    (m n : ℕ)
    → ltb m n ≡ (
        if ltb (year m) (year n)
        then true
        else if year m == year n
        then (if ltb (month m) (month n)
            then true
            else if month m == month n
            then ltb (day_of_month m) (day_of_month n)
            else false)
        else false)
fields_order m n =
    let m_year = year-month_index m in
    let n_year = year-month_index n in
    let m_month = month_index-fields m in
    let n_month = month_index-fields n in
    let m_bounds = field_bounds m in
    let n_bounds = field_bounds n in
    ground (arith, month_index_mono m n, month_index_mono n m, day_of_month_same m n)

-- Up to the year 9999 the order of the texts of two dates is that of the dates.
pub text_ltb-format_date :
    (m n : ℕ) → year m ≤ 9999 → year n ≤ 9999 → text_ltb (format_date m) (format_date n) ≡ ltb m n
unfolding format_date
text_ltb-format_date m n hm hn =
    let m_small = small_fields m in
    let n_small = small_fields n in
    simp
      (
        lex_four (year m) (year n)
            (b'-' ∷ two_digits (month m) (b'-' ∷ two_digits (day_of_month m) []))
            (b'-' ∷ two_digits (month n) (b'-' ∷ two_digits (day_of_month n) [])) (omega arith)
            (omega arith),
        lex_dash,
        lex_two,
        m_small.0,
        n_small.0,
        m_small.1,
        n_small.1,
        lex_end,
        fields_order m n,
      )
      (ground arith)
