-- ===== src/Lends/Ledger.antt =====
-- The tables of the lends, and what the operations share.
use text.Mathlib.Text.{◌==◌ as str_eq}
use sajni_api.Prelude.{
  ℕ, ◌+◌, Bool, Option, none, some, List, String, Result, ok, err, if◌then◌else◌, ◌==◌, ◌≡◌, ◌>>=◌,
  refl, true, false, ◌∷◌, [], ◌++◌,
}
use sajni_api.Prelude.Int.{ℤ}
use sajni_api.Calendar.Text.{Text}
use sajni_api.Lends.Tables.{select, sum_of, find}

-- `fin_accounts` and `fin_transactions`.
pub record Account : Type 0 where
  pub id : ℕ
  pub type : String
  pub statement_day : Option ℤ
  pub due_day : Option ℤ

pub record Txn : Type 0 where
  pub id : ℕ
  pub account_id : ℕ
  pub category_id : Option ℕ
  pub type : String
  pub amount : ℕ
  pub description : String
  pub note : String
  pub txn_at : ℕ
  pub transfer_pair : Option ℕ
  pub slate_id : ℕ
  pub split_of : Option ℕ

-- `fin_lends`, `fin_lend_settlements` and `fin_lend_repayments`.
pub record Lend : Type 0 where
  pub id : ℕ
  pub source_account_id : ℕ
  pub source_transaction_id : ℕ
  pub borrower : String
  pub principal : ℕ
  pub description : String
  pub note : String
  pub lent_at : ℕ
  pub due_date : Option Text
  pub remind : Bool
  pub origin : String

pub record Settlement : Type 0 where
  pub id : ℕ
  pub borrower : String
  pub transaction_id : ℕ
  pub lend_id : Option ℕ

pub record Repayment : Type 0 where
  pub lend_id : ℕ
  pub destination_account_id : ℕ
  pub transaction_id : ℕ
  pub amount : ℕ
  pub repaid_at : ℕ

-- The tables; `invested` has the txn_id of every row of fin_investment_contributions, `categories` the
-- ids of the user's expense categories, and `next_id` is above every id that was given out.
pub record Book : Type 0 where
  pub accounts : List Account
  pub txns : List Txn
  pub lends : List Lend
  pub settlements : List Settlement
  pub repayments : List Repayment
  pub invested : List ℕ
  pub categories : List ℕ
  pub next_id : ℕ

-- What the operations refuse; `failed` is an error of the database, as where a row that a foreign key
-- names is missing or a CHECK fails.
pub data LendError : Type 0 where
  no_person_or_txn one_bill_only txn_gone not_plain_expense lend_gone not_paid_for : LendError
  bad_share nobody share_without_person twice share_not_positive has_share shares_too_large :
      LendError
  bad_amount owes_nothing owes_less adjustment_gone bad_category wrong_lend : LendError
  not_plain_income payment_gone too_early failed : LendError

-- `strings.TrimSpace`, `strings.ToLower` and SQL's `LOWER(BTRIM(…))`, which are libraries.
pub record Names : Type 0 where
  pub trim : String → String
  pub lower : String → String
  pub person : String → String

-- A row that has to be there.
abbrev pub must {ℓ} : {A : Type ℓ} → LendError → Option A → Result LendError A
must e none = err e
must e (some row) = ok row

-- A refusal where a test holds.
abbrev pub refuse : LendError → Bool → Result LendError Bool
refuse e test = if test then err e else ok test

-- What a call that succeeded went through.
pub of_must {ℓ κ} :
    {A : Type ℓ} {B : Type κ} {rest : A → Result LendError B} {last : B} (e : LendError)
    (o : Option A)
    → (must e o >>= rest) ≡ ok last
    → (a : A) × (o ≡ some a) × (rest a ≡ ok last)
of_must e none h = cc
of_must e (some a) h = (a, refl, h)

pub refuse_ok : {c : Bool} (e : LendError) (test : Bool) → refuse e test ≡ ok c → test ≡ false
refuse_ok e true h = cc
refuse_ok e false h = refl

pub of_ok {ℓ} : {A : Type ℓ} {a b : A} → ◌≡◌ {A = Result LendError A} (ok a) (ok b) → a ≡ b
of_ok h = cc

pub err_not {ℓ} :
    {A : Type ℓ} {e : LendError} {a : A} → ◌≡◌ {A = Result LendError A} (err e) (ok a) → ⊥
err_not h = cc

-- `borrowerMatch`
unfoldable pub is_person : Names → String → String → Bool
is_person names borrower other = str_eq (names.person other) (names.person borrower)

unfoldable pub lends_of : Names → String → Book → List Lend
lends_of names borrower s = select (λ l. is_person names borrower l.borrower) s.lends

unfoldable pub settlements_of : Names → String → Book → List Settlement
settlements_of names borrower s = select (λ p. is_person names borrower p.borrower) s.settlements

-- The amount of a settlement's transaction.
unfoldable pub paid_amount : List Txn → Settlement → ℕ
paid_amount txns p = elim (find Txn.id p.transaction_id txns) [ none ↦ 0 | some t ↦ t.amount ]

-- What a person was lent, and what they paid back or were forgiven.
unfoldable pub lent_total : Names → String → Book → ℕ
lent_total names borrower s = sum_of Lend.principal (lends_of names borrower s)

unfoldable pub paid_total : Names → String → Book → ℕ
paid_total names borrower s = sum_of (paid_amount s.txns) (settlements_of names borrower s)

-- `INSERT INTO fin_lends …`; its principal has to be above zero.
unfoldable pub insert_lend : Lend → Book → Result LendError Book
insert_lend row s =
    if row.principal == 0
    then err failed
    else ok (record s { lends = s.lends ++ row ∷ []; next_id = s.next_id + 1 })

unfoldable pub insert_txn : Txn → Book → Book
insert_txn row s = record s { txns = s.txns ++ row ∷ []; next_id = s.next_id + 1 }

unfoldable pub insert_settlement : Settlement → Book → Book
insert_settlement row s = record s {
  settlements = s.settlements ++ row ∷ [];
  next_id = s.next_id + 1;
}
