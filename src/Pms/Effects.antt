-- ===== src/Pms/Effects.antt =====
-- How the point of sale agrees with its own check and with the ledger
-- (apps/console/src/main/pms.ts with packages/database/src/ledger.ts).
use hotelia.Prelude.{
  ℕ, ◌≡◌, ◌↔◌, refl, sym, ap, ◌∙◌, Text, List, [], ◌∷◌, ◌++◌, Option, none, some, Bool, true, false,
  All, All-append, inl, inr, arith, same_text_iff, Bool-cases, Option-cases, ◌==◌,
}
use hotelia.Prelude.Int.{pos}
use hotelia.Prelude.Table.{find}
use hotelia.Folios.Row.{Day, Folio, FolioLineItem, Books, committed, Report}
use hotelia.Folios.Closing.{CloseBusinessDayInput, close_business_day}
use hotelia.Folios.Balance.{IsBalanced, owed, add_item-Balanced}
use hotelia.Folios.Closed.{IsClosed, closes-IsClosed}
use hotelia.Pms.Row.{Room, has_room_id, room_of, Reservation, Hotel}
use hotelia.Pms.Barrier.{
  PosVerifyInput, PosChargeInput, PosChargeResult, PosOutcome, barred, charged, VerifyReason,
  room_is, is_stay, same_name, active_stay, stay_in_room, pos_verify_guest,
}
use hotelia.Pms.Charge.{
  new_folio, folio_for, charged_folio, charged_item, charged_books, charge_stay, pos_post_charge,
  pos_result, rate_of,
}
use hotelia.Pms.Guarded.{post-Passed, post-charge_stay, charge_stay-books, charged_folio-items}

abbrev pub IsCharged : PosOutcome → Type 0
IsCharged (barred b) = ⊥
IsCharged (charged r h) = Unit {0}

abbrev pub verify_of : PosChargeInput → PosVerifyInput
verify_of input = record {
  property_id = input.property_id;
  room_number = input.room_number;
  last_name = input.last_name;
}

find-cong :
    {A : Type 0} (p q : A → Bool) → ((a : A) → p a ≡ q a) → (t : List A) → find p t ≡ find q t
find-cong p q same [] = refl
find-cong p q same (x ∷ t) = ground (arith, same x, find-cong p q same t)

found_active :
    (i : ℕ) (rooms : List Room)
    → All (λ (r : Room). r.is_active ≡ true) rooms
    → (p : ℕ) (number : Text)
    → room_is true p number (find (has_room_id i) rooms)
      ≡ room_is false p number (find (has_room_id i) rooms)
found_active i [] h p number = refl
found_active i (r ∷ rooms) h p number = elim (Bool-cases (r.id == i)) [
  | inl e ↦ rw (e, h.0) refl
  | inr e ↦ rw e (found_active i rooms h.1 p number)
]

room_active :
    (o : Option ℕ) (rooms : List Room)
    → All (λ (r : Room). r.is_active ≡ true) rooms
    → (p : ℕ) (number : Text)
    → room_is true p number (room_of rooms o) ≡ room_is false p number (room_of rooms o)
room_active none rooms h p number = refl
room_active (some i) rooms h p number = found_active i rooms h p number

same_stay :
    (p : ℕ) (number : Text) (h : Hotel)
    → All (λ (r : Room). r.is_active ≡ true) h.rooms
    → active_stay p number h ≡ stay_in_room p number h
unfolding active_stay stay_in_room
same_stay p number h a =
    find-cong (is_stay true h.rooms p number) (is_stay false h.rooms p number)
      (λ s. rw (room_active s.room_id h.rooms a p number) refl) h.reservations

-- The barrier as one test of the stay that was found.
abbrev admits : (Text → Text) → Text → Option Reservation → Bool
admits lower name none = false
admits lower name (some s) = same_name lower s.guest.last_name name

verify-admits :
    (lower : Text → Text) (input : PosVerifyInput) (h : Hotel)
    → (pos_verify_guest lower input h).verified
      ≡ admits lower input.last_name (active_stay input.property_id input.room_number h)
unfolding pos_verify_guest
verify-admits lower input h = ground arith

IsCharged-admits :
    (lower : Text → Text) (i j : ℕ) (now : Day) (input : PosChargeInput) (h : Hotel)
    → IsCharged (pos_post_charge lower i j now input h)
      ↔ (admits lower input.last_name (stay_in_room input.property_id input.room_number h) ≡ true)
unfolding pos_post_charge charge_stay
IsCharged-admits lower i j now input h =
    elim (Option-cases (stay_in_room input.property_id input.room_number h)) [
      | inl e ↦ rw (e, pos_post_charge) (λ c. absurd c, λ c. absurd (cc c))
      | inr (s, e) ↦ elim (Bool-cases (same_name lower s.guest.last_name input.last_name)) [
        | inl f ↦ rw (e, f, pos_post_charge) (λ c. refl, λ c. tt)
        | inr f ↦ rw (e, f, pos_post_charge) (λ c. absurd c, λ c. absurd (cc c))
      ]
    ]

-- If all rooms are active, a charge commits exactly if the check of the guest succeeds.
pub post_iff_verified :
    (lower : Text → Text) (i j : ℕ) (now : Day) (input : PosChargeInput) (h : Hotel)
    → All (λ (r : Room). r.is_active ≡ true) h.rooms
    → ((pos_verify_guest lower (verify_of input) h).verified ≡ true)
      ↔ IsCharged (pos_post_charge lower i j now input h)
post_iff_verified lower i j now input h a =
    let e : (pos_verify_guest lower (verify_of input) h).verified
        ≡ admits lower input.last_name (stay_in_room input.property_id input.room_number h) =
      verify-admits lower (verify_of input) h
      ∙ ap (admits lower input.last_name) (same_stay input.property_id input.room_number h a) in
    let c = IsCharged-admits lower i j now input h in (λ v. c.1 (sym e ∙ v), λ v. e ∙ c.0 v)

-- A checked-in guest whose room is not active can be charged, though the check says that there is
-- no active stay.
post_ignores_is_active :
    (lower : Text → Text) (i j : ℕ) (now : Day) (input : PosChargeInput) (h : Hotel)
    (s : Reservation)
    → active_stay input.property_id input.room_number h ≡ none
    → stay_in_room input.property_id input.room_number h ≡ some s
    → lower s.guest.last_name ≡ lower input.last_name
    → ((pos_verify_guest lower (verify_of input) h).reason ≡ VerifyReason.no_active_stay)
      × IsCharged (pos_post_charge lower i j now input h)
unfolding pos_verify_guest
post_ignores_is_active lower i j now input h s e f n = (
  ground (arith, e),
  (IsCharged-admits lower i j now input h).1
      (ap (admits lower input.last_name) f ∙ (same_text_iff _ _).1 n),
)

folio_for-IsBalanced :
    (j p : ℕ) (s : Reservation) (b : Books) (o : Option Folio)
    → owed j b ≡ pos 0
    → IsBalanced b
    → IsBalanced (folio_for j p s b o).1
folio_for-IsBalanced j p s b none e h = All-append _ b.folios (new_folio j p s ∷ []) h (sym e, tt)
folio_for-IsBalanced j p s b (some f) e h = h

charged_folio-IsBalanced :
    (j : ℕ) (input : PosChargeInput) (s : Reservation) (h : Hotel)
    → owed j h.books ≡ pos 0
    → IsBalanced h.books
    → IsBalanced (charged_folio j input s h).1
unfolding charged_folio
charged_folio-IsBalanced j input s h e b = folio_for-IsBalanced j input.property_id s h.books _ e b

charge_stay-eq :
    (i j : ℕ) (now : Day) (input : PosChargeInput) (s : Reservation) (h : Hotel)
    → charge_stay i j now input s h
      ≡ charged
          (pos_result input s
            (rate_of input h)
            (charged_item i j now input s h)
            (charged_books i j now input s h))
          (record h { books = charged_books i j now input s h })
unfolding charge_stay
charge_stay-eq i j now input s h = refl

-- The balances are right after a charge if they were before and the identifier for a new folio
-- stands in no item and in no transfer, so that it owes nothing.
pub post_charge-IsBalanced :
    (lower : Text → Text) (i j : ℕ) (now : Day) (input : PosChargeInput) (h h' : Hotel)
    (r : PosChargeResult)
    → pos_post_charge lower i j now input h ≡ charged r h'
    → owed j h.books ≡ pos 0
    → IsBalanced h.books
    → IsBalanced h'.books
post_charge-IsBalanced lower i j now input h h' r e o b =
    let (s, p, c) = post-Passed lower i j now input h h' r e in
    let k = (charge_stay-books i j now input s h h' r c).0 in
    let f = charged_folio-IsBalanced j input s h o b in
    rw k (
      add_item-Balanced (charged_item i j now input s h) (charged_folio j input s h).1.items
        (charged_folio j input s h).1.transfers (charged_folio j input s h).1.folios f)

-- A charge at the point of sale asks for no open business day: on a day that was closed for the
-- property it commits as on any other, and its item is dated on that day.
pub post_after_close :
    (lower : Text → Text) (i j : ℕ) (input : PosChargeInput) (h : Hotel) (s : Reservation)
    (close : CloseBusinessDayInput) (b : Books) (report : Report)
    → close_business_day close b ≡ committed (report, h.books)
    → input.property_id ≡ close.property_id
    → stay_in_room input.property_id input.room_number h ≡ some s
    → lower s.guest.last_name ≡ lower input.last_name
    → IsClosed input.property_id close.business_date h.books.days
      × (r : PosChargeResult) × (h' : Hotel) × (pos_post_charge lower i j close.business_date input
            h
          ≡ charged r h')
      × (x : FolioLineItem) × (h'.books.items ≡ h.books.items ++ x ∷ [])
      × (x.business_date ≡ close.business_date)
post_after_close lower i j input h s close b report c q f n = (
  rw q (closes-IsClosed close b h.books report c),
  pos_result input s (rate_of input h) (charged_item i j close.business_date input s h)
      (charged_books i j close.business_date input s h),
  record h { books = charged_books i j close.business_date input s h },
  post-charge_stay lower i j close.business_date input h s f ((same_text_iff _ _).1 n)
      ∙ charge_stay-eq i j close.business_date input s h,
  charged_item i j close.business_date input s h,
  ap (λ z. z ++ charged_item i j close.business_date input s h ∷ [])
      (charged_folio-items j input s h).0,
  refl,
)
