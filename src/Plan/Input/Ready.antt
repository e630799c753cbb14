-- ===== src/Plan/Input/Ready.antt =====
-- What `Normalize` accepts, and the weekdays that it keeps.
use sajni_api.Prelude.{
  ℕ, ◌≤◌, ◌<◌, ◌≡◌, ◌==◌, Bool, true, false, not, ◌&&◌, ◌||◌, List, [], ◌∷◌, ◌++◌, ltb, leb, length,
  Result, ok, err, ok_of_bind, contains, arith, refl, subst, ◌∙◌, Bool-cases, inl, inr,
}
use sajni_api.Prelude.Int.{ℤ, pos, negsuc, pos_part, ltb_ℤ, eqb_ℤ}
use sajni_api.Reminder.Rule.{is_empty, contains_int}
use sajni_api.Plan.{PlanError, no_name, long_name, bad_color, no_weekday, bad_start}
use sajni_api.Plan.Input.{
  TextOps, SaveInput, Checked, is_color, is_clock, full_start, distinct_days, insert_day, sort_days,
  refuse_plan, or_workdays, normalize,
}

abbrev pub all_above : ℕ → List ℕ → Bool
all_above x [] = true
all_above x (y ∷ ys) = ltb x y && all_above x ys

-- In order, none twice.
abbrev pub is_ascending : List ℕ → Bool
is_ascending [] = true
is_ascending (x ∷ xs) = all_above x xs && is_ascending xs

abbrev none_twice : List ℕ → Bool
none_twice [] = true
none_twice (x ∷ xs) = not (contains xs x) && none_twice xs

abbrev pub in_week : List ℕ → Bool
in_week [] = true
in_week (x ∷ xs) = leb x 6 && in_week xs

contains-insert_day : (a b : ℕ) (xs : List ℕ) → contains (insert_day a xs) b ≡ contains (a ∷ xs) b
unfolding insert_day
contains-insert_day a b [] = refl
contains-insert_day a b (x ∷ xs) = ground (arith, contains-insert_day a b xs)

contains-sort_days : (b : ℕ) (xs : List ℕ) → contains (sort_days xs) b ≡ contains xs b
unfolding sort_days
contains-sort_days b [] = refl
contains-sort_days b (x ∷ xs) =
    ground (arith, contains-insert_day x b (sort_days xs), contains-sort_days b xs)

in_week-insert_day : (a : ℕ) (xs : List ℕ) → in_week (insert_day a xs) ≡ in_week (a ∷ xs)
unfolding insert_day
in_week-insert_day a [] = refl
in_week-insert_day a (x ∷ xs) = ground (arith, in_week-insert_day a xs)

in_week-sort_days : (xs : List ℕ) → in_week (sort_days xs) ≡ in_week xs
unfolding sort_days
in_week-sort_days [] = refl
in_week-sort_days (x ∷ xs) =
    ground (arith, in_week-insert_day x (sort_days xs), in_week-sort_days xs)

all_above-insert_day :
    (z a : ℕ) (xs : List ℕ) → all_above z (insert_day a xs) ≡ all_above z (a ∷ xs)
unfolding insert_day
all_above-insert_day z a [] = refl
all_above-insert_day z a (x ∷ xs) = ground (arith, all_above-insert_day z a xs)

all_above_trans : (a x : ℕ) (xs : List ℕ) → a < x → all_above x xs ≡ true → all_above a xs ≡ true
all_above_trans a x [] h k = refl
all_above_trans a x (y ∷ ys) h k = ground (arith, all_above_trans a x ys)

is_ascending-insert_day :
    (a : ℕ) (xs : List ℕ)
    → contains xs a ≡ false
    → is_ascending xs ≡ true
    → is_ascending (insert_day a xs) ≡ true
unfolding insert_day
is_ascending-insert_day a [] h k = refl
is_ascending-insert_day a (x ∷ xs) h k =
    ground
      (arith, is_ascending-insert_day a xs, all_above-insert_day x a xs, all_above_trans a x xs)

is_ascending-sort_days : (xs : List ℕ) → none_twice xs ≡ true → is_ascending (sort_days xs) ≡ true
unfolding sort_days
is_ascending-sort_days [] h = refl
is_ascending-sort_days (x ∷ xs) h =
    is_ascending-insert_day x (sort_days xs) (contains-sort_days x xs ∙ ground arith)
      (is_ascending-sort_days xs (ground arith))

contains-append_one :
    (xs : List ℕ) (d b : ℕ) → contains (xs ++ d ∷ []) b ≡ (contains xs b || (d == b))
contains-append_one [] d b = ground arith
contains-append_one (x ∷ xs) d b = ground (arith, contains-append_one xs d b)

none_twice-append_one :
    (xs : List ℕ) (d : ℕ)
    → contains xs d ≡ false
    → none_twice xs ≡ true
    → none_twice (xs ++ d ∷ []) ≡ true
none_twice-append_one [] d h k = refl
none_twice-append_one (x ∷ xs) d h k =
    ground (arith, contains-append_one xs d x, none_twice-append_one xs d)

in_week-append_one :
    (xs : List ℕ) (d : ℕ) → d ≤ 6 → in_week xs ≡ true → in_week (xs ++ d ∷ []) ≡ true
in_week-append_one [] d h k = ground arith
in_week-append_one (x ∷ xs) d h k = ground (arith, in_week-append_one xs d)

-- The days that the loop keeps.
record Kept (days : List ℕ) (given : List ℤ) (out : List ℕ) : Type 0 where
  once : none_twice out ≡ true
  week : in_week out ≡ true
  same : (d : ℕ) → contains out d ≡ (contains days d || contains_int given (pos d))

same_day :
    (d : ℤ) (e : ℕ)
    → (ltb_ℤ d (pos 0) || ltb_ℤ (pos 6) d) ≡ false
    → eqb_ℤ d (pos e) ≡ (pos_part d == e)
same_day (pos n) e h = ground arith
same_day (negsuc n) e h = absurd (ground arith)

pub not_ok {ℓ} :
    {A : Type ℓ} {e : PlanError} {a : A} → ◌≡◌ {A = Result PlanError A} (err e) (ok a) → ⊥
not_ok h = cc

pub plan_of_ok {ℓ} : {A : Type ℓ} {a b : A} → ◌≡◌ {A = Result PlanError A} (ok a) (ok b) → a ≡ b
plan_of_ok h = cc

distinct_days-Kept :
    (days : List ℕ) (given : List ℤ) (out : List ℕ)
    → none_twice days ≡ true
    → in_week days ≡ true
    → distinct_days days given ≡ ok out
    → Kept days given out
unfolding distinct_days contains_int
distinct_days-Kept days [] out once week h =
    subst (Kept days []) (plan_of_ok h)
      (record { once = once; week = week; same = λ d. ground arith })
distinct_days-Kept days (d ∷ given) out once week h =
    elim (Bool-cases (ltb_ℤ d (pos 0) || ltb_ℤ (pos 6) d)) [
      | inl outside ↦ absurd (not_ok (rw (distinct_days, outside) at h))
      | inr inside ↦ elim (Bool-cases (contains days (pos_part d))) [
        | inl known ↦
            let rest =
              distinct_days-Kept days given out once week
                (rw (distinct_days, inside, known) at h) in
            record {
              once = rest.once;
              week = rest.week;
              same = λ e. rest.same e ∙ known_same e known (same_day d e inside);
            }
        | inr new ↦
            let small : pos_part d ≤ 6 = ground arith in
            let rest =
              distinct_days-Kept (days ++ pos_part d ∷ []) given out
                (none_twice-append_one days (pos_part d) new once)
                (in_week-append_one days (pos_part d) small week)
                (rw (distinct_days, inside, new) at h) in
            record {
              once = rest.once;
              week = rest.week;
              same = λ e. rest.same e ∙ new_same e (same_day d e inside);
            }
      ]
    ]
  where
    known_same :
        (e : ℕ)
        → contains days (pos_part d) ≡ true
        → eqb_ℤ d (pos e) ≡ (pos_part d == e)
        → (contains days e || contains_int given (pos e))
          ≡ (contains days e || contains_int (d ∷ given) (pos e))
    known_same e known test = rw (contains_int, test) (ground arith)

    new_same :
        (e : ℕ)
        → eqb_ℤ d (pos e) ≡ (pos_part d == e)
        → (contains (days ++ pos_part d ∷ []) e || contains_int given (pos e))
          ≡ (contains days e || contains_int (d ∷ given) (pos e))
    new_same e test =
        rw (contains_int, test) (ground (arith, contains-append_one days (pos_part d) e))

-- What `Normalize` returns: weekdays from 0 to 6 in order, none twice and at least one, the same ones as
-- were given (Monday to Friday for none), a name that is not empty and has at most 80 runes, a colour
-- that is empty or written as a hex value, and a start time written as a clock shows it.
pub record IsReady (ops : TextOps) (input : SaveInput) (c : Checked) : Type 0 where
  pub ascending : is_ascending c.weekdays ≡ true
  pub week : in_week c.weekdays ≡ true
  pub some_day : 1 ≤ length c.weekdays
  pub given : (d : ℕ) → contains c.weekdays d ≡ contains_int (or_workdays input.weekdays) (pos d)
  pub named : is_empty c.name ≡ false
  pub short : ops.runes c.name ≤ 80
  pub colored : (is_empty c.color || is_color c.color) ≡ true
  pub timed : is_clock c.start_time ≡ true

pub refuse_plan-ok :
    {b : Bool} (e : PlanError) (test : Bool) → refuse_plan e test ≡ ok b → test ≡ false
refuse_plan-ok e true h = cc
refuse_plan-ok e false h = refl

length-insert_day : (d : ℕ) (days : List ℕ) → 1 ≤ length (insert_day d days)
unfolding insert_day
length-insert_day d [] = omega arith
length-insert_day d (x ∷ days) = ground arith

length-sort_days : (days : List ℕ) → (length days == 0) ≡ false → 1 ≤ length (sort_days days)
unfolding sort_days
length-sort_days [] h = ground arith
length-sort_days (d ∷ days) h = length-insert_day d (sort_days days)

-- A plan that `Normalize` accepts has its weekdays from 0 to 6 in order, none twice, at least one, and the
-- same as were given (Monday to Friday where none were); its name is not empty and has at most 80
-- runes, its colour is empty or a hex value, and its start time is an hour and a minute of the day.
pub normalize-IsReady :
    (ops : TextOps) (input : SaveInput) (c : Checked)
    → normalize ops input ≡ ok c
    → IsReady ops input c
unfolding normalize
normalize-IsReady ops input c h =
    let name = ops.trim input.name in
    let color = ops.upper (ops.trim input.color) in
    let start_time = full_start (ops.trim input.start_time) in
    let (b1, e1, h1) = ok_of_bind (refuse_plan no_name (is_empty name)) h in
    let (b2, e2, h2) = ok_of_bind (refuse_plan long_name (ltb 80 (ops.runes name))) h1 in
    let (b3, e3, h3) =
      ok_of_bind (refuse_plan bad_color (not (is_empty color) && not (is_color color))) h2 in
    let (days, e4, h4) = ok_of_bind (distinct_days [] (or_workdays input.weekdays)) h3 in
    let (b5, e5, h5) = ok_of_bind (refuse_plan no_weekday (length days == 0)) h4 in
    let (b6, e6, h6) = ok_of_bind (refuse_plan bad_start (not (is_clock start_time))) h5 in
    let kept = distinct_days-Kept [] (or_workdays input.weekdays) days refl refl e4 in
    let colored = refuse_plan-ok bad_color (not (is_empty color) && not (is_color color)) e3 in
    let timed = refuse_plan-ok bad_start (not (is_clock start_time)) e6 in
    let short = refuse_plan-ok long_name (ltb 80 (ops.runes name)) e2 in
    subst (IsReady ops input) (plan_of_ok h6) (record {
      ascending = is_ascending-sort_days days kept.once;
      week = in_week-sort_days days ∙ kept.week;
      some_day = length-sort_days days (refuse_plan-ok no_weekday (length days == 0) e5);
      given = λ d. contains-sort_days d days ∙ kept.same d;
      named = refuse_plan-ok no_name (is_empty name) e1;
      short = ground arith;
      colored = ground arith;
      timed = ground arith;
    })
