-- ===== src/Lends/Settle/Owed.antt =====
-- What a person owes after an adjustment: never less than nothing.
use Prim.Native.String.{◌++◌ as append}
use text.Mathlib.Text.{◌==◌ as str_eq}
use text.Mathlib.TextPositions.{eq_refl}
use sajni_api.Prelude.{
  ℕ, ◌+◌, ◌-◌, ◌≤◌, ◌<◌, ◌≡◌, ◌==◌, if◌then◌else◌, Bool, true, false, ◌||◌, Option, some, List, [],
  ◌∷◌, ◌++◌, String, ltb, ok, ok_of_bind, arith, refl, ap, subst, ◌∙◌, All,
}
use sajni_api.Calendar.Zone.{Zone}
use sajni_api.Lends.Tables.{select, select-append, select-All, find, sum_of, sum_of-append}
use sajni_api.Lends.Ledger.{
  Txn, Settlement, Book, Names, of_must, of_ok, refuse_ok, refuse, is_person, lends_of,
  settlements_of, paid_amount, lent_total, paid_total, insert_txn, insert_settlement,
  no_person_or_txn, owes_nothing, owes_less,
}
use sajni_api.Lends.Rebalance.{derived, check_lend_order, rebalance}
use sajni_api.Lends.Shares.Rows.{IsRow, IsLedger}
use sajni_api.Lends.Settle.{latest, check_pin, writeoff, forgive}

-- The settlements name rows whose ids were given out.
unfoldable pub IsSettled : Book → Type 0
IsSettled s = All (λ p. p.transaction_id < s.next_id) s.settlements

-- A new row is found, and hides no older one.
find_new :
    (n id : ℕ) (row : Txn) (txns : List Txn)
    → All (IsRow n) txns
    → row.id ≡ n
    → find Txn.id id (txns ++ row ∷ []) ≡ (if id == n then some row else find Txn.id id txns)
unfolding find
find_new n id row [] order new = ground arith
find_new n id row (t ∷ txns) order new =
    let rest = find_new n id row txns order.1 new in let older = order.0.0 in ground arith

-- The older settlements pay what they paid.
paid_same :
    (n : ℕ) (row : Txn) (txns : List Txn) (ps : List Settlement)
    → All (IsRow n) txns
    → row.id ≡ n
    → All (λ p. p.transaction_id < n) ps
    → sum_of (paid_amount (txns ++ row ∷ [])) ps ≡ sum_of (paid_amount txns) ps
unfolding sum_of paid_amount
paid_same n row txns [] order new older = refl
paid_same n row txns (p ∷ ps) order new older =
    let apart : (p.transaction_id == n) ≡ false = ground (arith, older.0) in
    let found : find Txn.id p.transaction_id (txns ++ row ∷ [])
        ≡ find Txn.id p.transaction_id txns =
      find_new n p.transaction_id row txns order new
      ∙ ap (λ (b : Bool). if b then some row else find Txn.id p.transaction_id txns) apart in
    let here : paid_amount (txns ++ row ∷ []) p ≡ paid_amount txns p =
      rw (paid_amount, found) refl in
    omega (arith, paid_same n row txns ps order new older.1)

paid_row :
    (txns : List Txn) (p : Settlement) {row : Txn}
    → find Txn.id p.transaction_id txns ≡ some row
    → paid_amount txns p ≡ row.amount
unfolding paid_amount
paid_row txns p h = rw (paid_amount, h) refl

same_name : (names : Names) (borrower : String) → is_person names borrower borrower ≡ true
unfolding is_person
same_name names borrower = eq_refl (names.person borrower)

-- What the person paid once a new row and its settlement are in.
paid_more :
    (names : Names) (borrower : String) (row : Txn) (settled : Settlement) (s : Book)
    → IsLedger s
    → IsSettled s
    → row.id ≡ s.next_id
    → settled.transaction_id ≡ row.id
    → is_person names borrower settled.borrower ≡ true
    → paid_total names borrower (insert_settlement settled (insert_txn row s))
      ≡ paid_total names borrower s + row.amount
unfolding paid_total insert_settlement insert_txn settlements_of IsLedger IsSettled
paid_more names borrower row settled s order older new of_row theirs =
    let mine : Settlement → Bool = λ p. is_person names borrower p.borrower in
    let txns = s.txns ++ row ∷ [] in
    let added = select-append mine s.settlements (settled ∷ []) in
    let last : select mine (settled ∷ []) ≡ settled ∷ [] = unfold select in rw theirs refl in
    let sum = sum_of-append (paid_amount txns) (select mine s.settlements) (settled ∷ []) in
    let before =
      paid_same s.next_id row s.txns (select mine s.settlements) order new
        (select-All mine (λ p. p.transaction_id < s.next_id) s.settlements older) in
    let same : (settled.transaction_id == s.next_id) ≡ true = ground arith in
    let found : find Txn.id settled.transaction_id txns ≡ some row =
      find_new s.next_id settled.transaction_id row s.txns order new
      ∙ ap (λ (b : Bool). if b then some row else find Txn.id settled.transaction_id s.txns) same in
    let now : sum_of (paid_amount txns) (settled ∷ []) ≡ row.amount =
      unfold sum_of in rw (paid_row txns settled found) (omega arith) in
    rw (added, last) (omega arith)

-- A rebalance leaves what was lent and paid.
rebalance-totals :
    (names : Names) (loc : Zone) (name borrower : String) (s t : Book)
    → rebalance names loc name s ≡ ok t
    → (paid_total names borrower t ≡ paid_total names borrower s)
      × (lent_total names borrower t ≡ lent_total names borrower s)
unfolding rebalance paid_total lent_total settlements_of lends_of
rebalance-totals names loc name borrower s t h =
    let (rows, e, more) = ok_of_bind (derived names loc name s) h in
    let (ordered, f, last) = ok_of_bind (check_lend_order names loc name s) more in
    subst
      (λ (x : Book).
        (paid_total names borrower x ≡ paid_total names borrower s)
        × (lent_total names borrower x ≡ lent_total names borrower s))
      (of_ok last) (refl, refl)

-- A rebalance leaves the lends, the rows and the settlements.
rebalance_keeps :
    (names : Names) (loc : Zone) (name : String) (s t : Book)
    → rebalance names loc name s ≡ ok t
    → (t.lends ≡ s.lends) × (t.txns ≡ s.txns) × (t.settlements ≡ s.settlements)
unfolding rebalance
rebalance_keeps names loc name s t h =
    let (rows, e, more) = ok_of_bind (derived names loc name s) h in
    let (ordered, f, last) = ok_of_bind (check_lend_order names loc name s) more in
    subst (λ (x : Book). (x.lends ≡ s.lends) × (x.txns ≡ s.txns) × (x.settlements ≡ s.settlements))
      (of_ok last) (refl, refl, refl)

-- An adjustment that is accepted lowers what its person owes by its amount, which is above zero: what
-- they paid grows by it and stays within what they were lent. The lends of everybody stay as they were;
-- one row of type writeoff with that amount is added after the others, one settlement of the person is
-- added that names it, and no other row or settlement changes. Every row has an id that was given out
-- and is not cut from itself, and the settlements name ids that were given out.
pub forgive_owed :
    (names : Names) (loc : Zone) (plain_slate : ℕ) (name : String) (amount : ℕ)
    (category_id : Option ℕ) (at : ℕ) (note : String) (lend_id : Option ℕ) (s : Book)
    (done : ℕ × Book)
    → IsLedger s
    → IsSettled s
    → forgive names loc plain_slate name amount category_id at note lend_id s ≡ ok done
    → (1 ≤ amount)
      × (paid_total names (names.trim name) done.1 ≡ paid_total names (names.trim name) s + amount)
      × (paid_total names (names.trim name) done.1 ≤ lent_total names (names.trim name) done.1)
      × (lent_total names (names.trim name) done.1 ≡ lent_total names (names.trim name) s)
      × (done.1.lends ≡ s.lends)
      × ((account_id : ℕ) × (done.1.txns
            ≡ s.txns
              ++ writeoff s.next_id account_id category_id amount
                  (append "Adjusted with " (names.trim name))
                  (names.trim note)
                  at
                  plain_slate
                ∷ []))
      × (done.1.settlements
          ≡ s.settlements
            ++ record {
              id = s.next_id + 1;
              borrower = names.trim name;
              transaction_id = s.next_id;
              lend_id = lend_id;
            }
              ∷ [])
unfolding forgive writeoff insert_settlement lent_total lends_of insert_txn
forgive_owed names loc plain_slate name amount category_id at note lend_id s done order older h =
    let borrower = names.trim name in
    let owed = lent_total names borrower s - paid_total names borrower s in
    let (c, e, h1) = ok_of_bind (refuse no_person_or_txn (str_eq borrower "" || (amount == 0))) h in
    let (last, f, h2) = of_must owes_nothing (latest (lends_of names borrower s)) h1 in
    let (d, g, h3) = ok_of_bind (refuse owes_nothing (owed == 0)) h2 in
    let (b, i, h4) = ok_of_bind (refuse owes_less (ltb owed amount)) h3 in
    let (a, j, h5) = ok_of_bind (check_pin names loc borrower lend_id s) h4 in
    let row =
      writeoff s.next_id last.source_account_id category_id amount
        (append "Adjusted with " borrower) (names.trim note) at plain_slate in
    let settlement : Settlement = record {
      id = s.next_id + 1;
      borrower = borrower;
      transaction_id = s.next_id;
      lend_id = lend_id;
    } in
    let full = insert_settlement settlement (insert_txn row s) in
    let (balanced, k, h6) = ok_of_bind (rebalance names loc borrower full) h5 in
    let given = refuse_ok no_person_or_txn (str_eq borrower "" || (amount == 0)) e in
    let enough = refuse_ok owes_less (ltb owed amount) i in
    let totals = rebalance-totals names loc borrower borrower full balanced k in
    let keeps = rebalance_keeps names loc borrower full balanced k in
    let more =
      paid_more names borrower row settlement s order older refl refl (same_name names borrower) in
    let lent : lent_total names borrower full ≡ lent_total names borrower s = refl in
    let positive : 1 ≤ amount = ground arith in
    subst
      (λ (x : ℕ × Book).
        (1 ≤ amount)
        × (paid_total names borrower x.1 ≡ paid_total names borrower s + amount)
        × (paid_total names borrower x.1 ≤ lent_total names borrower x.1)
        × (lent_total names borrower x.1 ≡ lent_total names borrower s)
        × (x.1.lends ≡ s.lends)
        × ((account_id : ℕ) × (x.1.txns
              ≡ s.txns
                ++ writeoff s.next_id account_id category_id amount
                    (append "Adjusted with " borrower) (names.trim note) at plain_slate
                  ∷ []))
        × (x.1.settlements ≡ s.settlements ++ settlement ∷ []))
      (of_ok h6)
      (
        positive,
        totals.0 ∙ more,
        ground arith,
        totals.1 ∙ lent,
        keeps.0,
        (last.source_account_id, keeps.1),
        keeps.2,
      )
