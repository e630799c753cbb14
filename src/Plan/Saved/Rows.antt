-- ===== src/Plan/Saved/Rows.antt =====
-- The rows of the table of plans that are found after a statement.
use text.Mathlib.Text.{◌==◌ as str_eq}
use text.Mathlib.TextEquality.{eq_iff}
use sajni_api.Prelude.{
  ℕ, ◌<◌, ◌≡◌, ◌≢◌, true, false, none, some, List, [], ◌∷◌, ◌++◌, String, if◌then◌else◌, ok, All,
  arith, refl, sym, ap, subst, ◌∙◌, Bool-cases, Option-cases, inl, inr, err, ◌⊎◌,
}
use sajni_api.Plan.{PlanRow, not_found, get}
use sajni_api.Plan.Saved.{Plans, is_plan, update_plan, delete_plan, delete}

pub none_not : {row : PlanRow} → none ≢ some row
none_not h = cc

pub row_of_some : {a b : PlanRow} → some a ≡ some b → a ≡ b
row_of_some h = cc

pub get-cons :
    (uid : String) (id : ℕ) (r : PlanRow) (rows : List PlanRow)
    → get uid id (r ∷ rows) ≡ (if is_plan uid id r then some r else get uid id rows)
unfolding get is_plan
get-cons uid id r rows = refl

pub get_nothing : (uid : String) (id : ℕ) → get uid id [] ≡ none
unfolding get
get_nothing uid id = refl

pub own_plan :
    (uid : String) (id : ℕ) (row : PlanRow)
    → is_plan uid id row ≡ true
    → (row.user_id ≡ uid) × (row.id ≡ id)
unfolding is_plan
own_plan uid id row h =
    let named : str_eq row.user_id uid ≡ true = ground arith in
    ((eq_iff row.user_id uid).0 named, ground arith)

module _ (uid : String) (id : ℕ) where
  -- The row that is found after an update, and after an insert under a new id.
  pub get-update_plan :
      (f : PlanRow → PlanRow) (rows : List PlanRow) {row : PlanRow}
      → ((r : PlanRow) → is_plan uid id (f r) ≡ is_plan uid id r)
      → get uid id rows ≡ some row
      → get uid id (update_plan uid id f rows) ≡ some (f row)
  unfolding update_plan
  get-update_plan f [] keeps h = absurd (none_not (sym (get_nothing uid id) ∙ h))
  get-update_plan f (r ∷ rows) {row} keeps h = elim (Bool-cases (is_plan uid id r)) [
    | inl own ↦
        let here : some r ≡ some row = rw own at (sym (get-cons uid id r rows) ∙ h) in
        rw (update_plan, own, get-cons, keeps r, own) (ap (λ x. some (f x)) (row_of_some here))
    | inr other ↦
        let there : get uid id rows ≡ some row = rw other at (sym (get-cons uid id r rows) ∙ h) in
        rw (update_plan, other, get-cons, other) (get-update_plan f rows {row = row} keeps there)
  ]

  pub get_new :
      (row : PlanRow) (rows : List PlanRow)
      → All (λ r. r.id < id) rows
      → is_plan uid id row ≡ true
      → get uid id (rows ++ row ∷ []) ≡ some row
  get_new row [] older own = rw (get-cons, own) refl
  get_new row (r ∷ rows) older own =
      let apart : is_plan uid id r ≡ false = unfold is_plan in ground (arith, older.0) in
      rw (get-cons, apart) (get_new row rows older.1 own)

  pub get-All :
      (P : PlanRow → Type 0) (rows : List PlanRow) {row : PlanRow}
      → All P rows
      → get uid id rows ≡ some row
      → P row
  get-All P [] all h = absurd (none_not (sym (get_nothing uid id) ∙ h))
  get-All P (r ∷ rows) {row} all h = elim (Bool-cases (is_plan uid id r)) [
    | inl own ↦ subst P (row_of_some (rw own at (sym (get-cons uid id r rows) ∙ h))) all.0
    | inr other ↦ get-All P rows {row = row} all.1 (rw other at (sym (get-cons uid id r rows) ∙ h))
  ]

  pub get-is_plan :
      (rows : List PlanRow) {row : PlanRow} → get uid id rows ≡ some row → is_plan uid id row ≡ true
  get-is_plan [] h = absurd (none_not (sym (get_nothing uid id) ∙ h))
  get-is_plan (r ∷ rows) {row} h = elim (Bool-cases (is_plan uid id r)) [
    | inl own ↦
        subst (λ x. is_plan uid id x ≡ true)
          (row_of_some (rw own at (sym (get-cons uid id r rows) ∙ h))) own
    | inr other ↦ get-is_plan rows {row = row} (rw other at (sym (get-cons uid id r rows) ∙ h))
  ]

get-delete_plan :
    (uid : String) (id : ℕ) (rows : List PlanRow) → get uid id (delete_plan uid id rows) ≡ none
unfolding delete_plan
get-delete_plan uid id [] = get_nothing uid id
get-delete_plan uid id (r ∷ rows) = elim (Bool-cases (is_plan uid id r)) [
  | inl own ↦ rw (delete_plan, own) (get-delete_plan uid id rows)
  | inr other ↦ rw (delete_plan, other, get-cons, other) (get-delete_plan uid id rows)
]

-- The row of one user's plan is no plan of another user, and none with another id.
is_plan_ne :
    (uid other : String) (id n : ℕ) (row : PlanRow)
    → (other ≢ uid) ⊎ (n ≢ id)
    → is_plan uid id row ≡ true
    → is_plan other n row ≡ false
is_plan_ne uid other id n row (inl apart) own = elim (Bool-cases (is_plan other n row)) [
  | inl both ↦ absurd (apart (sym (own_plan other n row both).0 ∙ (own_plan uid id row own).0))
  | inr neither ↦ neither
]
is_plan_ne uid other id n row (inr apart) own = unfold is_plan in ground arith

get-delete_plan_ne :
    (uid other : String) (id n : ℕ) (rows : List PlanRow)
    → (other ≢ uid) ⊎ (n ≢ id)
    → get other n (delete_plan uid id rows) ≡ get other n rows
unfolding delete_plan
get-delete_plan_ne uid other id n [] apart = refl
get-delete_plan_ne uid other id n (r ∷ rows) apart = elim (Bool-cases (is_plan uid id r)) [
  | inl own ↦
      rw (delete_plan, own, get-cons, is_plan_ne uid other id n r apart own)
        (get-delete_plan_ne uid other id n rows apart)
  | inr kept ↦
      rw (delete_plan, kept, get-cons, get-cons)
        (ap (λ o. if is_plan other n r then some r else o)
          (get-delete_plan_ne uid other id n rows apart))
]

-- What a deletion leaves: the plan is gone, the plans of other users and those with other ids are as
-- they were, and so are the ids to give out and the queue of alerts.
pub record IsDeleted (uid : String) (id : ℕ) (s t : Plans) : Type 0 where
  pub gone : get uid id t.rows ≡ none
  pub kept :
      (other : String) (n : ℕ) → (other ≢ uid) ⊎ (n ≢ id) → get other n t.rows ≡ get other n s.rows
  pub same_next_id : t.next_id ≡ s.next_id
  pub same_queue : t.queue ≡ s.queue

-- Where the user has a plan with the id, `Delete` succeeds: the plan is no longer found, every plan of
-- another user, with the same id too, and every one with another id is found as it was, and the queue
-- of alerts stays. Where the user has none, whoever else has one, `Delete` fails with not found.
pub delete_gone :
    (uid : String) (id : ℕ) (s : Plans)
    → ((row : PlanRow) × (get uid id s.rows ≡ some row)
        × ((t : Plans) × (delete uid id s ≡ ok t) × IsDeleted uid id s t))
      ⊎ ((get uid id s.rows ≡ none) × (delete uid id s ≡ err not_found))
unfolding delete
delete_gone uid id s = elim (Option-cases (get uid id s.rows)) [
  | inl nothing ↦ inr (nothing, rw nothing refl)
  | inr (row, e) ↦
      let left : Plans = record s { rows = delete_plan uid id s.rows } in
      inl (
        row,
        e,
        (
          left,
          rw e refl,
          record {
            gone = get-delete_plan uid id s.rows;
            kept = λ other n apart. get-delete_plan_ne uid other id n s.rows apart;
            same_next_id = refl;
            same_queue = refl;
          },
        ),
      )
]
