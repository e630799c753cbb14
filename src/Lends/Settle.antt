-- ===== src/Lends/Settle.antt =====
-- `Forgive`, `EditAdjustment`, `SettleWith`, `SetSettlementLend` and `Unsettle`.
pub mod Owed
use Prim.Native.String.{◌++◌ as append}
use text.Mathlib.Text.{◌==◌ as str_eq}
use sajni_api.Prelude.{
  ℕ, ◌+◌, ◌-◌, ◌==◌, Bool, true, false, not, ◌&&◌, ◌||◌, Option, none, some, List, [], ◌∷◌, ◌++◌,
  String, ltb, leb, length, if◌then◌else◌, Result, ok, err, ◌>>=◌, contains,
}
use sajni_api.Calendar.Zone.{Zone}
use sajni_api.Lends.Tables.{select, exists, find, update, delete, sum_of}
use sajni_api.Lends.Ledger.{
  Txn, Lend, Settlement, Repayment, Book, Names, LendError, no_person_or_txn, txn_gone, bad_amount,
  owes_nothing, owes_less, adjustment_gone, bad_category, wrong_lend, not_plain_income,
  payment_gone, failed, must, refuse, is_person, lends_of, settlements_of, paid_amount, lent_total,
  paid_total, insert_txn, insert_settlement,
}
use sajni_api.Lends.Rebalance.{rebalance}
use sajni_api.Lends.Shares.{is_some, update_txn}

-- The latest lend: `ORDER BY lent_at DESC, id DESC LIMIT 1`.
abbrev pub later_lend : Lend → Option Lend → Lend
later_lend l none = l
later_lend l (some best) =
    if ltb best.lent_at l.lent_at || (best.lent_at == l.lent_at) && ltb best.id l.id
    then l
    else best

unfoldable pub latest : List Lend → Option Lend
latest [] = none
latest (l ∷ lends) = some (later_lend l (latest lends))

-- The settlement that goes with an adjustment: its transaction is a writeoff.
unfoldable pub is_writeoff : List Txn → ℕ → Bool
is_writeoff txns id = exists (λ t. (t.id == id) && str_eq t.type "writeoff") txns

unfoldable pub settlement_of : ℕ → List Settlement → Option Settlement
settlement_of txn_id settlements = find Settlement.transaction_id txn_id settlements

-- The row that `Forgive` writes; the slate is the column's default, the user's plain one.
unfoldable pub writeoff : ℕ → ℕ → Option ℕ → ℕ → String → String → ℕ → ℕ → Txn
writeoff id account_id category_id amount description note at plain_slate = record {
  id = id;
  account_id = account_id;
  category_id = category_id;
  type = "writeoff";
  amount = amount;
  description = description;
  note = note;
  txn_at = at;
  transfer_pair = none;
  slate_id = plain_slate;
  split_of = none;
}

-- A change of a field that is given; nil leaves it.
abbrev pub with_at : Option ℕ → Txn → Txn
with_at none t = t
with_at (some at) t = record t { txn_at = at }

module _ (names : Names) (loc : Zone) where
  -- `checkPin`
  unfoldable pub check_pin : String → Option ℕ → Book → Result LendError Bool
  check_pin borrower none s = ok true
  check_pin borrower (some lend_id) s =
      refuse wrong_lend (not (is_some (find Lend.id lend_id (lends_of names borrower s))))

  -- `Forgive`; `plain_slate` is the slate that the insert's trigger or default fills in.
  unfoldable pub forgive :
      ℕ → String → ℕ → Option ℕ → ℕ → String → Option ℕ → Book → Result LendError (ℕ × Book)
  forgive plain_slate name amount category_id at note lend_id s = do
    let borrower = names.trim name
    given ← refuse no_person_or_txn (str_eq borrower "" || (amount == 0))
    let owed = lent_total names borrower s - paid_total names borrower s
    last ← must owes_nothing (latest (lends_of names borrower s))
    owing ← refuse owes_nothing (owed == 0)
    enough ← refuse owes_less (ltb owed amount)
    pinned ← check_pin borrower lend_id s
    let id = s.next_id
    let row =
        writeoff id last.source_account_id category_id amount (append "Adjusted with " borrower)
          (names.trim note) at plain_slate
    let settlement : Settlement = record {
      id = id + 1;
      borrower = borrower;
      transaction_id = id;
      lend_id = lend_id;
    }
    balanced ← rebalance names loc borrower (insert_settlement settlement (insert_txn row s))
    ok (id, balanced)

  -- What others of a person's settlements paid.
  unfoldable pub paid_without : String → ℕ → Book → ℕ
  paid_without borrower txn_id s =
      sum_of (paid_amount s.txns)
        (select (λ p. not (p.transaction_id == txn_id)) (settlements_of names borrower s))

  unfoldable pub edit_amount : String → ℕ → Option ℕ → Book → Result LendError Book
  edit_amount borrower txn_id none s = ok s
  edit_amount borrower txn_id (some amount) s = do
    positive ← refuse bad_amount (amount == 0)
    let room = lent_total names borrower s - paid_without borrower txn_id s
    fits ← refuse owes_less (ltb room amount)
    ok (update_txn txn_id (λ t. record t { amount = amount }) s)

  unfoldable pub edit_category : ℕ → Option ℕ → Book → Result LendError Book
  edit_category txn_id none s = ok s
  edit_category txn_id (some category_id) s = do
    known ← refuse bad_category (not (contains s.categories category_id))
    ok (update_txn txn_id (λ t. record t { category_id = some category_id }) s)

  unfoldable pub edit_adjustment : ℕ → Option ℕ → Option ℕ → Option ℕ → Book → Result LendError Book
  edit_adjustment txn_id amount category_id at s = do
    settled ← must adjustment_gone (settlement_of txn_id s.settlements)
    adjustment ← refuse adjustment_gone (not (is_writeoff s.txns txn_id))
    paid ← edit_amount settled.borrower txn_id amount s
    filed ← edit_category txn_id category_id paid
    rebalance names loc settled.borrower (update_txn txn_id (with_at at) filed)

  -- One round of the loop of `SettleWith`.
  unfoldable pub settle_one : String → Option ℕ → ℕ → Book → Result LendError Book
  settle_one borrower lend_id txn_id s = do
    t ← must txn_gone (find Txn.id txn_id s.txns)
    plain ← refuse not_plain_income (not (str_eq t.type "income") || is_some t.transfer_pair)
    let settlement : Settlement = record {
      id = s.next_id;
      borrower = borrower;
      transaction_id = txn_id;
      lend_id = lend_id;
    }
    ok (
        insert_settlement settlement
          (update_txn txn_id (λ t. record t { type = "lend_repayment" }) s))

  unfoldable pub settle_all : String → Option ℕ → List ℕ → Book → Result LendError Book
  settle_all borrower lend_id [] s = ok s
  settle_all borrower lend_id (txn_id ∷ txn_ids) s =
      settle_one borrower lend_id txn_id s >>= λ first. settle_all borrower lend_id txn_ids first

  -- `SettleWith`: the spelling on the latest lend is kept.
  unfoldable pub settle_with : String → List ℕ → Option ℕ → Book → Result LendError Book
  settle_with name txn_ids lend_id s = do
    let given = names.trim name
    picked ← refuse no_person_or_txn (str_eq given "" || (length txn_ids == 0))
    last ← must owes_nothing (latest (lends_of names given s))
    known ← refuse owes_nothing (str_eq last.borrower "")
    pinned ← check_pin last.borrower lend_id s
    settled ← settle_all last.borrower lend_id txn_ids s
    rebalance names loc last.borrower settled

  unfoldable pub set_settlement_lend : ℕ → Option ℕ → Book → Result LendError Book
  set_settlement_lend settlement_id lend_id s = do
    settled ← must payment_gone (find Settlement.id settlement_id s.settlements)
    pinned ← check_pin settled.borrower lend_id s
    rebalance names loc settled.borrower (record s {
      settlements =
          update Settlement.id settlement_id (λ p. record p { lend_id = lend_id }) s.settlements;
    })

  -- The deletion of a writeoff, and the change of any other row back to income.
  unfoldable pub undo_payment : ℕ → List Txn → List Txn
  undo_payment id txns =
      if is_writeoff txns id
      then delete Txn.id id txns
      else update Txn.id id (λ t. record t { type = "income" }) txns

  unfoldable pub unsettle : ℕ → Book → Result LendError Book
  unsettle settlement_id s = do
    settled ← must payment_gone (find Settlement.id settlement_id s.settlements)
    rebalance names loc settled.borrower (record s {
      settlements = delete Settlement.id settlement_id s.settlements;
      repayments = select (λ r. not (r.transaction_id == settled.transaction_id)) s.repayments;
      txns = undo_payment settled.transaction_id s.txns;
    })
