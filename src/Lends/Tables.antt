-- ===== src/Lends/Tables.antt =====
-- Tables as lists of rows with an id, and the statements on them.
use sajni_api.Prelude.{
  ℕ, ◌+◌, ◌≡◌, ◌≢◌, ◌==◌, Bool, false, ◌||◌, Option, none, some, List, [], ◌∷◌, ◌++◌, if◌then◌else◌,
  arith, refl, ap, subst, All, Bool-cases, inl, inr,
}

module _ {ℓ} {A : Type ℓ} where
  -- `WHERE …`
  unfoldable pub select : (A → Bool) → List A → List A
  select keep [] = []
  select keep (row ∷ rows) = if keep row then row ∷ select keep rows else select keep rows

  -- `EXISTS (SELECT 1 …)`
  unfoldable pub exists : (A → Bool) → List A → Bool
  exists keep [] = false
  exists keep (row ∷ rows) = keep row || exists keep rows

  -- `COALESCE(SUM(…), 0)`
  unfoldable pub sum_of : (A → ℕ) → List A → ℕ
  sum_of amount [] = 0
  sum_of amount (row ∷ rows) = amount row + sum_of amount rows

module _ {ℓ} {A : Type ℓ} (id_of : A → ℕ) where
  -- `SELECT … WHERE id = $1`
  unfoldable pub find : ℕ → List A → Option A
  find id [] = none
  find id (row ∷ rows) = if id_of row == id then some row else find id rows

  -- `UPDATE … WHERE id = $1`
  unfoldable pub update : ℕ → (A → A) → List A → List A
  update id f [] = []
  update id f (row ∷ rows) = if id_of row == id then f row ∷ rows else row ∷ update id f rows

  -- `DELETE … WHERE id = $1`
  unfoldable pub delete : ℕ → List A → List A
  delete id [] = []
  delete id (row ∷ rows) = if id_of row == id then rows else row ∷ delete id rows

module _ {ℓ} {A : Type ℓ} where
  pub sum_of-append :
      (amount : A → ℕ) (rows more : List A)
      → sum_of amount (rows ++ more) ≡ sum_of amount rows + sum_of amount more
  unfolding sum_of
  sum_of-append amount [] more = omega arith
  sum_of-append amount (row ∷ rows) more = omega (arith, sum_of-append amount rows more)

  of_some : {a b : A} → some a ≡ some b → a ≡ b
  of_some h = cc

  module _ (id_of : A → ℕ) (amount : A → ℕ) where
    pub sum_of-update :
        (id : ℕ) (f : A → A) (rows : List A) {row : A}
        → find id_of id rows ≡ some row
        → sum_of amount (update id_of id f rows) + amount row ≡ sum_of amount rows + amount (f row)
    unfolding sum_of find update
    sum_of-update id f [] h = cc
    sum_of-update id f (r ∷ rows) {row} h = elim (Bool-cases (id_of r == id)) [
      | inl own ↦ ground arith
      | inr other ↦ let rest = sum_of-update id f rows {row = row} (ground arith) in ground arith
    ]

    pub sum_of-delete :
        (id : ℕ) (rows : List A) {row : A}
        → find id_of id rows ≡ some row
        → sum_of amount (delete id_of id rows) + amount row ≡ sum_of amount rows
    unfolding sum_of find delete
    sum_of-delete id [] h = cc
    sum_of-delete id (r ∷ rows) {row} h = elim (Bool-cases (id_of r == id)) [
      | inl own ↦ ground arith
      | inr other ↦ let rest = sum_of-delete id rows {row = row} (ground arith) in ground arith
    ]

    -- A statement that leaves the amounts leaves their sum.
    pub sum_of-update_same :
        (id : ℕ) (f : A → A) (rows : List A)
        → ((row : A) → amount (f row) ≡ amount row)
        → sum_of amount (update id_of id f rows) ≡ sum_of amount rows
    unfolding sum_of update
    sum_of-update_same id f [] h = refl
    sum_of-update_same id f (r ∷ rows) h = ground (arith, h r, sum_of-update_same id f rows h)

  module _ (id_of : A → ℕ) where
    pub find-delete_ne :
        (id other : ℕ) (rows : List A)
        → id ≢ other
        → find id_of id (delete id_of other rows) ≡ find id_of id rows
    unfolding find delete
    find-delete_ne id other [] h = refl
    find-delete_ne id other (r ∷ rows) h = ground (arith, find-delete_ne id other rows h)

    pub find-update_ne :
        (id other : ℕ) (f : A → A) (rows : List A)
        → id ≢ other
        → ((row : A) → id_of (f row) ≡ id_of row)
        → find id_of id (update id_of other f rows) ≡ find id_of id rows
    unfolding find update
    find-update_ne id other f [] h keeps = refl
    find-update_ne id other f (r ∷ rows) h keeps =
        ground (arith, keeps r, find-update_ne id other f rows h keeps)

    pub find-append :
        (id : ℕ) (rows more : List A) {row : A}
        → find id_of id rows ≡ some row
        → find id_of id (rows ++ more) ≡ some row
    unfolding find
    find-append id [] more h = cc
    find-append id (r ∷ rows) more {row} h = elim (Bool-cases (id_of r == id)) [
      | inl own ↦ ground arith
      | inr other ↦ let rest = find-append id rows more {row = row} (ground arith) in ground arith
    ]

    pub find_id :
        (id : ℕ) (rows : List A) {row : A} → find id_of id rows ≡ some row → id_of row ≡ id
    unfolding find
    find_id id [] h = cc
    find_id id (r ∷ rows) {row} h = elim (Bool-cases (id_of r == id)) [
      | inl own ↦ ground arith
      | inr other ↦ find_id id rows {row = row} (ground arith)
    ]

    module _ {κ} (P : A → Type κ) where
      pub find-All :
          (id : ℕ) (rows : List A) {row : A} → find id_of id rows ≡ some row → All P rows → P row
      unfolding find
      find-All id [] h all = cc
      find-All id (r ∷ rows) {row} h all = elim (Bool-cases (id_of r == id)) [
        | inl own ↦ subst P (of_some (rw own at h)) all.0
        | inr other ↦ find-All id rows {row = row} (rw other at h) all.1
      ]

      pub update-All :
          (id : ℕ) (f : A → A) (rows : List A)
          → ((row : A) → P row → P (f row))
          → All P rows
          → All P (update id_of id f rows)
      unfolding update
      update-All id f [] keeps all = tt
      update-All id f (r ∷ rows) keeps all = elim (Bool-cases (id_of r == id)) [
        | inl own ↦ rw own (keeps r all.0, all.1)
        | inr other ↦ rw other (all.0, update-All id f rows keeps all.1)
      ]

      pub delete-All : (id : ℕ) (rows : List A) → All P rows → All P (delete id_of id rows)
      unfolding delete
      delete-All id [] all = tt
      delete-All id (r ∷ rows) all = elim (Bool-cases (id_of r == id)) [
        | inl own ↦ rw own all.1
        | inr other ↦ rw other (all.0, delete-All id rows all.1)
      ]

module _ {ℓ} {A : Type ℓ} (keep : A → Bool) where
  pub select-append :
      (rows more : List A) → select keep (rows ++ more) ≡ select keep rows ++ select keep more
  unfolding select
  select-append [] more = refl
  select-append (r ∷ rows) more = elim (Bool-cases (keep r)) [
    | inl kept ↦ rw (select, kept) (ap (λ x. r ∷ x) (select-append rows more))
    | inr dropped ↦ rw (select, dropped) (select-append rows more)
  ]

  pub select-All {κ} : (P : A → Type κ) (rows : List A) → All P rows → All P (select keep rows)
  unfolding select
  select-All P [] all = tt
  select-All P (r ∷ rows) all = elim (Bool-cases (keep r)) [
    | inl kept ↦ rw (select, kept) (all.0, select-All P rows all.1)
    | inr dropped ↦ rw (select, dropped) (select-All P rows all.1)
  ]
