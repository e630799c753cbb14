-- ===== src/Lends/Rebalance/Cover.antt =====
-- What the repayments cover: never more than a lend's principal, nor than the payment.
use sajni_api.Prelude.{
  ℕ, ◌+◌, ◌-◌, ◌≤◌, ◌≡◌, ◌==◌, min, Option, none, some, List, [], ◌∷◌, if◌then◌else◌, ok,
  ok_of_bind, arith, refl, sym, ap, subst, Bool-cases, Option-cases, inl, inr, ◌⊎◌,
}
use sajni_api.Lends.Tables.{select, find, sum_of}
use sajni_api.Lends.Ledger.{Lend, Repayment, of_ok, err_not}
use sajni_api.Lends.Rebalance.{Rooms, room_of, set_room, all_rooms, Pin, pins, repayment, cover}

-- What is repaid on a lend.
unfoldable pub repaid_on : ℕ → List Repayment → ℕ
repaid_on id rows = sum_of Repayment.amount (select (λ r. r.lend_id == id) rows)

-- What is left of a lend, 0 for a lend that is not there.
unfoldable pub left_of : ℕ → Rooms → ℕ
left_of id rooms = elim (room_of id rooms) [ none ↦ 0 | some left ↦ left ]

left-cons :
    (id i l : ℕ) (rooms : Rooms)
    → left_of id ((i, l) ∷ rooms) ≡ (if i == id then l else left_of id rooms)
unfolding left_of room_of
left-cons id i l rooms = elim (Bool-cases (i == id)) [
  | inl same ↦ ground arith
  | inr other ↦ ground arith
]

left_found :
    (id : ℕ) (rooms : Rooms) {left : ℕ} → room_of id rooms ≡ some left → left_of id rooms ≡ left
unfolding left_of
left_found id rooms h = ap (λ (o : Option ℕ). elim o [ none ↦ 0 | some l ↦ l ]) h

left-set_room :
    (id other left : ℕ) (rooms : Rooms) {old : ℕ}
    → room_of id rooms ≡ some old
    → left_of other (set_room id left rooms) ≡ (if id == other then left else left_of other rooms)
unfolding room_of set_room
left-set_room id other left [] h = cc
left-set_room id other left ((i, l) ∷ rooms) {old} h = elim (Bool-cases (i == id)) [
  | inl here ↦
      let new = left-cons other i left rooms in
      let before = left-cons other i l rooms in rw (set_room, here, new, before) (ground arith)
  | inr away ↦
      let rest = left-set_room id other left rooms {old = old} (rw (room_of, away) at h) in
      let new = left-cons other i l (set_room id left rooms) in
      let before = left-cons other i l rooms in
      rw (set_room, away, new, before, rest) (ground arith)
]

pub repaid_on-cons :
    (id : ℕ) (r : Repayment) (rows : List Repayment)
    → repaid_on id (r ∷ rows)
      ≡ (if r.lend_id == id then r.amount + repaid_on id rows else repaid_on id rows)
unfolding repaid_on select sum_of
repaid_on-cons id r rows = ground arith

-- A row of the loop, and the rest.
pub cover_cases :
    (p : Pin) (pins : List Pin) (rooms : Rooms) (rows : List Repayment)
    → cover (p ∷ pins) rooms ≡ ok rows
    → (cover pins rooms ≡ ok rows)
      ⊎ ((left : ℕ) × (more : List Repayment) × (room_of p.lend_id rooms ≡ some left)
          × (1 ≤ min p.amount left)
          × (cover pins (set_room p.lend_id (left - min p.amount left) rooms) ≡ ok more)
          × (rows ≡ repayment p (min p.amount left) ∷ more))
unfolding cover
cover_cases p pins rooms rows h = elim (Option-cases (room_of p.lend_id rooms)) [
  | inl e ↦ inl (rw (cover, e) at h)
  | inr (left, e) ↦ elim (Bool-cases (left == 0)) [
    | inl full ↦ inl (rw (cover, e, full) at h)
    | inr space ↦ elim (Bool-cases (min p.amount left == 0)) [
      | inl nothing ↦ absurd (err_not (rw (cover, e, space, nothing) at h))
      | inr some_part ↦
          let (more, f, last) =
            ok_of_bind (cover pins (set_room p.lend_id (left - min p.amount left) rooms))
              (rw (cover, e, space, some_part) at h) in
          inr (left, more, e, ground arith, f, sym (of_ok last))
    ]
  ]
]

pub cover_bound :
    (id : ℕ) (pins : List Pin) (rooms : Rooms) (rows : List Repayment)
    → cover pins rooms ≡ ok rows
    → repaid_on id rows ≤ left_of id rooms
unfolding cover
cover_bound id [] rooms rows h =
    subst (λ x. repaid_on id x ≤ left_of id rooms) (of_ok h)
      (unfold repaid_on select sum_of in omega arith)
cover_bound id (p ∷ pins) rooms rows h = elim (cover_cases p pins rooms rows h) [
  | inl skipped ↦ cover_bound id pins rooms rows skipped
  | inr (left, more, e, some_part, f, same) ↦
      let part = min p.amount left in
      let rest = cover_bound id pins (set_room p.lend_id (left - part) rooms) more f in
      let after = left-set_room p.lend_id id (left - part) rooms e in
      let row = repaid_on-cons id (repayment p part) more in
      let here = left_found p.lend_id rooms e in
      subst (λ x. repaid_on id x ≤ left_of id rooms) (sym same)
        (rw row (elim (Bool-cases (p.lend_id == id)) [
          | inl own ↦
              let same_id : p.lend_id ≡ id = ground arith in
              let there = ap (λ i. left_of i rooms) same_id in ground arith
          | inr other ↦ ground arith
        ]))
]

left-all_rooms :
    (id : ℕ) (lends : List Lend) {l : Lend}
    → find Lend.id id lends ≡ some l
    → left_of id (all_rooms lends) ≡ l.principal
unfolding all_rooms find
left-all_rooms id [] h = cc
left-all_rooms id (x ∷ lends) {l} h = elim (Bool-cases (x.id == id)) [
  | inl own ↦ rw (left-cons id x.id x.principal (all_rooms lends)) (ground arith)
  | inr other ↦
      rw (left-cons id x.id x.principal (all_rooms lends), other)
        (left-all_rooms id lends {l = l} (rw other at h))
]

no_room :
    (id : ℕ) (lends : List Lend) → find Lend.id id lends ≡ none → left_of id (all_rooms lends) ≡ 0
unfolding all_rooms find left_of room_of
no_room id [] h = refl
no_room id (x ∷ lends) h = elim (Bool-cases (x.id == id)) [
  | inl own ↦ ground arith
  | inr other ↦
      rw (left-cons id x.id x.principal (all_rooms lends), other) (no_room id lends (rw other at h))
]

-- The principal of one of some lends, 0 for another.
unfoldable pub principal_of : ℕ → List Lend → ℕ
principal_of id lends = elim (find Lend.id id lends) [ none ↦ 0 | some l ↦ l.principal ]

pub left-principal_of :
    (id : ℕ) (lends : List Lend) → left_of id (all_rooms lends) ≡ principal_of id lends
unfolding principal_of
left-principal_of id lends = elim (Option-cases (find Lend.id id lends)) [
  | inl e ↦ rw (principal_of, e) (no_room id lends e)
  | inr (l, e) ↦ rw (principal_of, e) (left-all_rooms id lends e)
]
