-- ===== src/Reminder/Normal/Weekdays.antt =====
-- The weekdays of a weekly rule: the loop of `Normalize` drops repetitions and the sort puts them in
-- order; a list that is in order already comes back unchanged.
use sajni_api.Prelude.{ok}
use sajni_api.Prelude.{
  Bool, true, false, not, ◌&&◌, ◌||◌, List, [], ◌∷◌, ◌++◌, if◌then◌else◌, ◌≡◌, arith, ◌⊎◌, refl,
  sym, ap, ◌∙◌,
}
use mathlib.Core.List.{append-nil, append_assoc}
use sajni_api.Prelude.Int.{ℤ, ltb_ℤ, eqb_ℤ}
use sajni_api.Reminder.Rule.{
  out_of_range, contains_int, distinct_weekdays, insert_int, sort_ints, is_empty,
}

abbrev pub all_above : ℤ → List ℤ → Bool
all_above x [] = true
all_above x (y ∷ ys) = ltb_ℤ x y && all_above x ys

-- In order, none twice.
abbrev pub is_ascending : List ℤ → Bool
is_ascending [] = true
is_ascending (x ∷ xs) = all_above x xs && is_ascending xs

abbrev pub in_week : List ℤ → Bool
in_week [] = true
in_week (x ∷ xs) = not (out_of_range x 0 6) && in_week xs

abbrev pub none_twice : List ℤ → Bool
none_twice [] = true
none_twice (x ∷ xs) = not (contains_int xs x) && none_twice xs

in_week-insert_int : (a : ℤ) (xs : List ℤ) → in_week (insert_int a xs) ≡ in_week (a ∷ xs)
unfolding insert_int
in_week-insert_int a [] = refl
in_week-insert_int a (x ∷ xs) = ground (arith, in_week-insert_int a xs)

pub in_week-sort_ints : (xs : List ℤ) → in_week (sort_ints xs) ≡ in_week xs
unfolding sort_ints
in_week-sort_ints [] = refl
in_week-sort_ints (x ∷ xs) =
    ground (arith, in_week-insert_int x (sort_ints xs), in_week-sort_ints xs)

contains-insert_int :
    (a b : ℤ) (xs : List ℤ) → contains_int (insert_int a xs) b ≡ contains_int (a ∷ xs) b
unfolding insert_int contains_int
contains-insert_int a b [] = refl
contains-insert_int a b (x ∷ xs) = ground (arith, contains-insert_int a b xs)

contains-cons :
    (x b : ℤ) (xs ys : List ℤ)
    → contains_int xs b ≡ contains_int ys b
    → contains_int (x ∷ xs) b ≡ contains_int (x ∷ ys) b
unfolding contains_int
contains-cons x b xs ys h = ap (λ t. eqb_ℤ x b || t) h

contains-sort_ints : (b : ℤ) (xs : List ℤ) → contains_int (sort_ints xs) b ≡ contains_int xs b
unfolding sort_ints
contains-sort_ints b [] = refl
contains-sort_ints b (x ∷ xs) =
    contains-insert_int x b (sort_ints xs)
    ∙ contains-cons x b (sort_ints xs) xs (contains-sort_ints b xs)

all_above-insert_int :
    (z a : ℤ) (xs : List ℤ) → all_above z (insert_int a xs) ≡ all_above z (a ∷ xs)
unfolding insert_int
all_above-insert_int z a [] = refl
all_above-insert_int z a (x ∷ xs) = ground (arith, all_above-insert_int z a xs)

all_above_trans :
    (a x : ℤ) (xs : List ℤ) → ltb_ℤ a x ≡ true → all_above x xs ≡ true → all_above a xs ≡ true
all_above_trans a x [] h k = refl
all_above_trans a x (y ∷ ys) h k = ground (arith, all_above_trans a x ys h)

insert_int-ascending :
    (a : ℤ) (xs : List ℤ)
    → contains_int xs a ≡ false
    → is_ascending xs ≡ true
    → is_ascending (insert_int a xs) ≡ true
unfolding insert_int contains_int
insert_int-ascending a [] h s = refl
insert_int-ascending a (x ∷ xs) h s =
    ground (arith, insert_int-ascending a xs, all_above-insert_int x a xs, all_above_trans a x xs)

pub sort_ascending : (xs : List ℤ) → none_twice xs ≡ true → is_ascending (sort_ints xs) ≡ true
unfolding sort_ints
sort_ascending [] h = refl
sort_ascending (x ∷ xs) h =
    ground
      (arith, insert_int-ascending x (sort_ints xs), contains-sort_ints x xs, sort_ascending xs)

is_empty-insert_int : (a : ℤ) (xs : List ℤ) → is_empty (insert_int a xs) ≡ false
unfolding insert_int
is_empty-insert_int a [] = refl
is_empty-insert_int a (x ∷ xs) = ground arith

pub is_empty-sort_ints : (xs : List ℤ) → is_empty (sort_ints xs) ≡ is_empty xs
unfolding sort_ints
is_empty-sort_ints [] = refl
is_empty-sort_ints (x ∷ xs) = is_empty-insert_int x (sort_ints xs)

in_week-snoc :
    (xs : List ℤ) (a : ℤ) → in_week (xs ++ a ∷ []) ≡ (in_week xs && not (out_of_range a 0 6))
in_week-snoc [] a = ground arith
in_week-snoc (x ∷ xs) a = ground (arith, in_week-snoc xs a)

contains-snoc :
    (xs : List ℤ) (a b : ℤ) → contains_int (xs ++ a ∷ []) b ≡ (contains_int xs b || eqb_ℤ a b)
unfolding contains_int
contains-snoc [] a b = ground arith
contains-snoc (x ∷ xs) a b = ground (arith, contains-snoc xs a b)

none_twice-snoc :
    (xs : List ℤ) (a : ℤ)
    → none_twice xs ≡ true
    → contains_int xs a ≡ false
    → none_twice (xs ++ a ∷ []) ≡ true
unfolding contains_int
none_twice-snoc [] a h n = refl
none_twice-snoc (x ∷ xs) a h n = ground (arith, none_twice-snoc xs a, contains-snoc xs a x)

is_empty-snoc : (xs : List ℤ) (a : ℤ) → is_empty (xs ++ a ∷ []) ≡ false
is_empty-snoc [] a = refl
is_empty-snoc (x ∷ xs) a = refl

contains_int-some : (xs : List ℤ) (a : ℤ) → contains_int xs a ≡ true → is_empty xs ≡ false
unfolding contains_int
contains_int-some [] a h = cc
contains_int-some (x ∷ xs) a h = refl

-- What the loop keeps: weekdays in range, none twice, and one at least if there was any.
pub distinct_weekdays_lem :
    (seen given kept : List ℤ)
    → distinct_weekdays seen given ≡ ok kept
    → in_week seen ≡ true
    → none_twice seen ≡ true
    → (is_empty seen ≡ false) ⊎ (is_empty given ≡ false)
    → (in_week kept ≡ true) × (none_twice kept ≡ true) × (is_empty kept ≡ false)
unfolding distinct_weekdays
distinct_weekdays_lem seen [] kept h w t s = ground arith
distinct_weekdays_lem seen (d ∷ ds) kept h w t s = ground (
  arith,
  distinct_weekdays_lem (if contains_int seen d then seen else seen ++ d ∷ []) ds kept,
  in_week-snoc seen d,
  none_twice-snoc seen d,
  is_empty-snoc seen d,
  contains_int-some seen d,
)

-- Every element of the first list is below the second one's elements.
abbrev below : List ℤ → List ℤ → Bool
below [] ys = true
below (x ∷ xs) ys = all_above x ys && below xs ys

below-snoc :
    (seen ys : List ℤ) (y : ℤ)
    → below seen (y ∷ ys) ≡ true
    → all_above y ys ≡ true
    → below (seen ++ y ∷ []) ys ≡ true
below-snoc [] ys y h k = ground arith
below-snoc (x ∷ seen) ys y h k = ground (arith, below-snoc seen ys y)

below-not_contains :
    (seen ys : List ℤ) (y : ℤ) → below seen (y ∷ ys) ≡ true → contains_int seen y ≡ false
unfolding contains_int
below-not_contains [] ys y h = refl
below-not_contains (x ∷ seen) ys y h = ground (arith, below-not_contains seen ys y)

distinct_from :
    (seen ws : List ℤ)
    → below seen ws ≡ true
    → in_week ws ≡ true
    → is_ascending ws ≡ true
    → distinct_weekdays seen ws ≡ ok (seen ++ ws)
unfolding distinct_weekdays
distinct_from seen [] b w s = ap ok (sym (append-nil seen))
distinct_from seen (y ∷ ys) b w s =
    let new = below-not_contains seen ys y b in
    let ih =
      distinct_from (seen ++ y ∷ []) ys (ground (arith, below-snoc seen ys y)) (ground arith)
        (ground arith) in
    rw new (ground (arith, ih, append_assoc seen (y ∷ []) ys))

pub distinct_ascending :
    (ws : List ℤ) → in_week ws ≡ true → is_ascending ws ≡ true → distinct_weekdays [] ws ≡ ok ws
distinct_ascending ws w s = distinct_from [] ws refl w s

insert_int-first : (x : ℤ) (xs : List ℤ) → all_above x xs ≡ true → insert_int x xs ≡ x ∷ xs
unfolding insert_int
insert_int-first x [] h = refl
insert_int-first x (y ∷ ys) h = ground arith

pub sort_fixed : (xs : List ℤ) → is_ascending xs ≡ true → sort_ints xs ≡ xs
unfolding sort_ints
sort_fixed [] h = refl
sort_fixed (x ∷ xs) h =
    ap (insert_int x) (sort_fixed xs (ground arith)) ∙ insert_int-first x xs (ground arith)
