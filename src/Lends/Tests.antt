-- ===== src/Lends/Tests.antt =====
-- Runs of the operations, and each theorem at an input.
use sajni_api.Prelude.{
  ◌++◌, ℕ, ◌+◌, ◌*◌, ◌≤◌, ◌≡◌, min, ok, refl, [], ◌∷◌, some, none, false, List, arith,
}
use sajni_api.Prelude.Int.{pos}
use sajni_api.Calendar.{
  day_of_month, month_index, date, days_before_month, days_before_year, find_month, is_leap, month,
  month_length, month_start, weekday, year,
}
use sajni_api.Calendar.Zone.{utc, day_length, local_day, at}
use sajni_api.Calendar.Kolkata.{monday}
use sajni_api.Calendar.Text.{format_date}
use sajni_api.Lends.Tables.{select, exists, find, update, delete, sum_of}
use sajni_api.Lends.Ledger.{
  Account, Txn, Lend, Book, Names, is_person, lends_of, settlements_of, paid_amount, lent_total,
  paid_total, insert_lend, insert_txn, insert_settlement,
}
use sajni_api.Lends.Due.{lend_due, clamp_day, cycle_day, card_cycle_due, statement_on}
use sajni_api.Lends.Due.Cycle.{card_cycle_due_bounds}
use sajni_api.Lends.Rebalance.{
  room_of, set_room, all_rooms, pins, insert_pin, sort_pins, earlier, cover, first_lend_day,
  is_early, check_lend_order, is_paid_by, other_repayments, derived, rebalance,
}
use sajni_api.Lends.Rebalance.Cover.{repaid_on, principal_of}
use sajni_api.Lends.Rebalance.Again.{rebalance_covered, rebalance_again}
use sajni_api.Lends.Shares.{
  cut_row, whole_again, cut_share, move_line, has_others, write_share, bill_of, delete_lend,
  fold_back, is_plain_expense, paid_for, set_paid_for_share, take_share, mark_one, mark_all,
  mark_paid_for, unmark_paid_for,
}
use sajni_api.Lends.Shares.Rows.{IsLedger, Keeps}
use sajni_api.Lends.Shares.Conserved.{
  set_paid_for_share-Keeps, mark_paid_for-Keeps, unmark_paid_for-Keeps,
}
use sajni_api.Lends.Bills.{
  SplitShare, can_split, check_share, check_shares, share_sum, cut_one, cut_all, rebalance_all,
  split_shares, split_checked, split_bill, is_cut_from, is_listed, sharers,
}
use sajni_api.Lends.Bills.Whole.{split_bill-Keeps}
use sajni_api.Lends.Settle.{
  latest, check_pin, writeoff, forgive, settle_one, settle_all, settle_with,
}
use sajni_api.Lends.Settle.Owed.{IsSettled, forgive_owed}

abbrev names : Names
names = record { trim = λ t. t; lower = λ t. t; person = λ t. t }

abbrev noon : ℕ
noon = monday * day_length

abbrev card : Account
card = record { id = 1; type = "credit_card"; statement_day = some (pos 12); due_day = none }

abbrev dinner : Txn
dinner = record {
  id = 10;
  account_id = 1;
  category_id = some 3;
  type = "expense";
  amount = 1000;
  description = "Dinner";
  note = "";
  txn_at = noon;
  transfer_pair = none;
  slate_id = 1;
  split_of = none;
}

abbrev refund : Txn
refund = record dinner { id = 11; type = "income"; amount = 300; txn_at = noon + day_length }

abbrev book : Book
book = record {
  accounts = card ∷ [];
  txns = dinner ∷ refund ∷ [];
  lends = [];
  settlements = [];
  repayments = [];
  invested = [];
  categories = 3 ∷ [];
  next_id = 20;
}

abbrev ann_lend : Lend
ann_lend = record {
  id = 20;
  source_account_id = 1;
  source_transaction_id = 21;
  borrower = "Ann";
  principal = 400;
  description = "Dinner";
  note = "";
  lent_at = noon;
  due_date = some (50 ∷ 48 ∷ 50 ∷ 54 ∷ 45 ∷ 48 ∷ 57 ∷ 45 ∷ 50 ∷ 55 ∷ []);
  remind = false;
  origin = "paid_for";
}

abbrev ann_share : Txn
ann_share = record dinner { id = 21; type = "lend"; amount = 400; split_of = some 10 }

abbrev shares : List SplitShare
shares = record { borrower = "Ann"; share = 300 } ∷ record { borrower = "Bob"; share = 200 } ∷ []

-- Ann's share of the dinner: 4.00 of 10.00.
abbrev marked : List ℕ × Book
marked = (
  20 ∷ [],
  record book {
    txns = record dinner { amount = 600 } ∷ refund ∷ ann_share ∷ [];
    lends = ann_lend ∷ [];
    next_id = 22;
  },
)

marked-ok : mark_paid_for names utc "Ann" (10 ∷ []) none false 400 book ≡ ok marked
unfolding all_rooms at card_cycle_due check_lend_order clamp_day cover cut_row cut_share cycle_day
    date day_of_month days_before_month days_before_year delete derived earlier exists find
    find_month first_lend_day format_date has_others insert_lend insert_pin insert_txn is_early
    is_leap is_paid_by is_person is_plain_expense lend_due lends_of local_day mark_all mark_one
    mark_paid_for month month_index month_length month_start move_line other_repayments paid_for
    pins rebalance room_of select set_paid_for_share set_room settlements_of sort_pins statement_on
    take_share update weekday whole_again write_share year
marked-ok = refl

-- The dinner split with Ann and Bob.
abbrev split : List ℕ × Book
split = (
  21 ∷ 23 ∷ [],
  record book {
    txns =
        record dinner { amount = 500 }
        ∷ refund
        ∷ record ann_share { id = 20; amount = 300 }
        ∷ record ann_share { id = 22; amount = 200 }
        ∷ [];
    lends =
        record ann_lend { id = 21; source_transaction_id = 20; principal = 300 }
        ∷ record ann_lend { id = 23; source_transaction_id = 22; borrower = "Bob"; principal = 200 }
        ∷ [];
    next_id = 24;
  },
)

split-ok : split_bill names utc 10 shares none false book ≡ ok split
unfolding all_rooms at can_split card_cycle_due check_lend_order check_share check_shares clamp_day
    cover cut_all cut_one cut_row cut_share cycle_day date day_of_month days_before_month
    days_before_year delete derived earlier exists find find_month first_lend_day format_date
    has_others insert_lend insert_pin insert_txn is_cut_from is_early is_leap is_listed is_paid_by
    is_person is_plain_expense lend_due lends_of local_day mark_all mark_one mark_paid_for month
    month_index month_length month_start move_line other_repayments paid_for pins rebalance
    rebalance_all room_of select set_paid_for_share set_room settlements_of share_sum sharers
    sort_pins split_bill split_checked split_shares statement_on take_share update weekday
    whole_again write_share year
split-ok = refl

-- Ann's refund settles her share.
abbrev settled : Book
settled = record marked.1 {
  txns =
      record dinner { amount = 600 } ∷ record refund { type = "lend_repayment" } ∷ ann_share ∷ [];
  settlements = record { id = 22; borrower = "Ann"; transaction_id = 11; lend_id = some 20 } ∷ [];
  repayments =
      record {
        lend_id = 20;
        destination_account_id = 1;
        transaction_id = 11;
        amount = 300;
        repaid_at = noon + day_length;
      }
      ∷ [];
  next_id = 23;
}

settled-ok : settle_with names utc "Ann" (11 ∷ []) (some 20) marked.1 ≡ ok settled
unfolding all_rooms at check_lend_order check_pin cover derived earlier exists find first_lend_day
    insert_pin insert_settlement is_early is_paid_by is_person latest lends_of local_day
    other_repayments pins rebalance room_of select set_room settle_all settle_one settle_with
    settlements_of sort_pins update weekday
settled-ok = refl

-- The rest is forgiven.
abbrev forgiven : ℕ × Book
forgiven = (
  23,
  record settled {
    txns =
        settled.txns
        ++ record dinner {
          id = 23;
          type = "writeoff";
          amount = 100;
          description = "Adjusted with Ann";
          note = "late";
        }
          ∷ [];
    settlements =
        settled.settlements
        ++ record { id = 24; borrower = "Ann"; transaction_id = 23; lend_id = none } ∷ [];
    next_id = 25;
  },
)

forgiven-ok : forgive names utc 1 "Ann" 100 (some 3) noon "late" none settled ≡ ok forgiven
unfolding all_rooms at check_lend_order check_pin cover derived earlier exists find first_lend_day
    forgive insert_pin insert_settlement insert_txn is_early is_paid_by is_person latest lends_of
    lent_total local_day other_repayments paid_amount paid_total pins rebalance room_of select
    set_room settlements_of sort_pins sum_of writeoff
forgiven-ok = refl

-- The share is folded back.
abbrev folded : Book
folded = record book { next_id = 22 }

folded-ok : unmark_paid_for names utc 20 marked.1 ≡ ok folded
unfolding all_rooms at check_lend_order cover delete delete_lend derived earlier exists find
    first_lend_day fold_back insert_pin is_early is_paid_by is_person lends_of local_day
    other_repayments paid_for pins rebalance room_of select set_room settlements_of sort_pins
    unmark_paid_for update
folded-ok = refl

-- The share is made smaller.
abbrev reshared : Book
reshared = record marked.1 {
  txns = record dinner { amount = 750 } ∷ refund ∷ record ann_share { amount = 250 } ∷ [];
  lends = record ann_lend { principal = 250 } ∷ [];
}

reshared-ok : set_paid_for_share names utc 20 250 marked.1 ≡ ok reshared
unfolding all_rooms at check_lend_order cover cut_row cut_share delete derived earlier exists find
    first_lend_day has_others insert_pin insert_txn is_early is_paid_by is_person lends_of local_day
    move_line other_repayments paid_for pins rebalance room_of select set_paid_for_share set_room
    settlements_of sort_pins update whole_again write_share
reshared-ok = refl

balanced : rebalance names utc "Ann" settled ≡ ok settled
unfolding all_rooms at check_lend_order cover derived earlier exists find first_lend_day insert_pin
    is_early is_paid_by is_person lends_of local_day other_repayments pins rebalance room_of select
    set_room settlements_of sort_pins
balanced = refl

book-IsLedger : IsLedger book
unfolding IsLedger
book-IsLedger = ground arith

marked-IsLedger : IsLedger marked.1
unfolding IsLedger
marked-IsLedger = ground arith

settled-IsLedger : IsLedger settled
unfolding IsLedger
settled-IsLedger = ground arith

settled-IsSettled : IsSettled settled
unfolding IsSettled
settled-IsSettled = ground arith

card_cycle_due_bounds_example :
    (738000 ≤ card_cycle_due 738000 (pos 12) (pos 0))
    × (day_of_month (card_cycle_due 738000 (pos 12) (pos 0))
        ≡ min (cycle_day (clamp_day (pos 12)) (pos 0)) 28)
    × (month_index (card_cycle_due 738000 (pos 12) (pos 0)) ≤ month_index 738000 + 2)
card_cycle_due_bounds_example = card_cycle_due_bounds 738000 (pos 12) (pos 0)

rebalance_covered_example :
    repaid_on 20
      (select (λ r. is_paid_by names utc "Ann" settled r.transaction_id) settled.repayments)
    ≤ principal_of 20 (lends_of names "Ann" settled)
rebalance_covered_example = rebalance_covered names utc "Ann" settled settled 20 balanced

rebalance_again_example : rebalance names utc "Ann" settled ≡ ok settled
rebalance_again_example = rebalance_again names utc "Ann" settled settled balanced

mark_paid_for-Keeps_example : Keeps book marked.1
mark_paid_for-Keeps_example =
    mark_paid_for-Keeps names utc "Ann" (10 ∷ []) none false 400 book marked book-IsLedger marked-ok

split_bill-Keeps_example : Keeps book split.1
split_bill-Keeps_example =
    split_bill-Keeps names utc 10 shares none false book split book-IsLedger split-ok

set_paid_for_share-Keeps_example : Keeps marked.1 reshared
set_paid_for_share-Keeps_example =
    set_paid_for_share-Keeps names utc 20 250 marked.1 reshared marked-IsLedger reshared-ok

lend_found : find Lend.id 20 marked.1.lends ≡ some ann_lend
unfolding find
lend_found = refl

share_found : find Txn.id 21 marked.1.txns ≡ some ann_share
unfolding find
share_found = refl

bill_found : bill_of (some 10) marked.1.txns ≡ ok (some (record dinner { amount = 600 }))
unfolding find
bill_found = refl

unmark_paid_for-Keeps_example : Keeps marked.1 folded
unmark_paid_for-Keeps_example =
    unmark_paid_for-Keeps names utc 20 marked.1 folded ann_lend ann_share
      (some (record dinner { amount = 600 })) marked-IsLedger lend_found share_found bill_found
      folded-ok

forgive_owed_example :
    (1 ≤ 100)
    × (paid_total names "Ann" forgiven.1 ≡ paid_total names "Ann" settled + 100)
    × (paid_total names "Ann" forgiven.1 ≤ lent_total names "Ann" forgiven.1)
    × (lent_total names "Ann" forgiven.1 ≡ lent_total names "Ann" settled)
    × (forgiven.1.lends ≡ settled.lends)
    × ((account_id : ℕ) × (forgiven.1.txns
          ≡ settled.txns
            ++ writeoff settled.next_id account_id (some 3) 100 "Adjusted with Ann" "late" noon 1
              ∷ []))
    × (forgiven.1.settlements
        ≡ settled.settlements
          ++ record {
            id = settled.next_id + 1;
            borrower = "Ann";
            transaction_id = settled.next_id;
            lend_id = none;
          }
            ∷ [])
forgive_owed_example =
    forgive_owed names utc 1 "Ann" 100 (some 3) noon "late" none settled forgiven settled-IsLedger
      settled-IsSettled forgiven-ok
