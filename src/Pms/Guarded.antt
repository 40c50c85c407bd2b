-- ===== src/Pms/Guarded.antt =====
-- What a charge to a room establishes, and what it leaves behind
-- (apps/console/src/main/pms.ts with packages/database/src/ledger.ts).
use hotelia.Prelude.{
  some_eq, ℕ, ◌≡◌, refl, sym, ap, ◌∙◌, inl, inr, Text, List, [], ◌∷◌, ◌++◌, Option, none, some,
  Bool, true, false, In, In-append_last, arith, Bool-cases, Option-cases, ◌==◌, if◌then◌else◌,
  same_text_iff,
}
use hotelia.Prelude.Int.{ℤ, pos}
use hotelia.Prelude.Table.{find, find-true, find-In, In-select, In-updated}
use hotelia.Folios.Row.{Day, Folio, FolioLineItem, Books, is_open}
use hotelia.Folios.Service.{has_folio_id, credited}
use hotelia.Pms.Row.{checked_in, Room, room_of, Reservation, Hotel}
use hotelia.Pms.Barrier.{
  PosChargeInput, PosChargeResult, charged, room_is, is_stay, is_open_folio_of, is_personal,
  is_master, first, pick_open_folio, same_name, stay_in_room,
}
use hotelia.Pms.Charge.{
  charged_folio, charged_item, charged_books, new_folio, folio_for, pos_audit, charge_stay,
  pos_post_charge,
}

-- What a charge that went through has found.
pub record Passed (lower : Text → Text) (input : PosChargeInput) (h : Hotel) (s : Reservation)
    : Type 0 where
  pub found : stay_in_room input.property_id input.room_number h ≡ some s
  pub named : lower s.guest.last_name ≡ lower input.last_name

pub post-charge_stay :
    (lower : Text → Text) (i j : ℕ) (now : Day) (input : PosChargeInput) (h : Hotel)
    (s : Reservation)
    → stay_in_room input.property_id input.room_number h ≡ some s
    → same_name lower s.guest.last_name input.last_name ≡ true
    → pos_post_charge lower i j now input h ≡ charge_stay i j now input s h
unfolding pos_post_charge
post-charge_stay lower i j now input h s f g = ground (arith, f, g)

pub post-Passed :
    (lower : Text → Text) (i j : ℕ) (now : Day) (input : PosChargeInput) (h h' : Hotel)
    (r : PosChargeResult)
    → pos_post_charge lower i j now input h ≡ charged r h'
    → (s : Reservation) × Passed lower input h s × (charge_stay i j now input s h ≡ charged r h')
unfolding pos_post_charge
post-Passed lower i j now input h h' r e =
    elim (Option-cases (stay_in_room input.property_id input.room_number h)) [
      | inl f ↦ absurd (ground (arith, e, f))
      | inr (s, f) ↦ elim (Bool-cases (same_name lower s.guest.last_name input.last_name)) [
        | inl g ↦ (
          s,
          record { found = f; named = (same_text_iff _ _).0 g },
          sym (post-charge_stay lower i j now input h s f g) ∙ e,
        )
        | inr g ↦ absurd (ground (arith, e, f, g))
      ]
    ]

pub charge_stay-books :
    (i j : ℕ) (now : Day) (input : PosChargeInput) (s : Reservation) (h h' : Hotel)
    (r : PosChargeResult)
    → charge_stay i j now input s h ≡ charged r h'
    → (h' ≡ record h { books = charged_books i j now input s h })
      × ((charged_item i j now input s h).total ≡ pos r.total)
unfolding charge_stay
charge_stay-books i j now input s h h' r e = (ground (arith, e), ground (arith, e))

first-In : (fs : List Folio) (f : Folio) → first fs ≡ some f → In f fs
first-In [] f e = absurd (cc (e))
first-In (g ∷ fs) f e = inl (some_eq e)

pick_open_folio-In : (fs : List Folio) (f : Folio) → pick_open_folio fs ≡ some f → In f fs
unfolding pick_open_folio
pick_open_folio-In fs f e = elim (Option-cases (find is_personal fs)) [
  | inr (g, k) ↦ find-In is_personal fs f (k ∙ ground (arith, e, k))
  | inl k ↦ elim (Option-cases (find is_master fs)) [
    | inr (g, n) ↦ find-In is_master fs f (n ∙ ground (arith, e, k, n))
    | inl n ↦ first-In fs f (ground (arith, e, k, n))
  ]
]

folio_for-items :
    (j p : ℕ) (s : Reservation) (b : Books) (o : Option Folio)
    → ((folio_for j p s b o).1.items ≡ b.items) × ((folio_for j p s b o).1.audit ≡ b.audit)
folio_for-items j p s b none = (refl, refl)
folio_for-items j p s b (some f) = (refl, refl)

-- The folio of a charge stands in the tables, open and of the stay.
record OnFolio (s : Reservation) (c : ℕ × Books) : Type 0 where
  folio : Folio
  here : In folio c.1.folios
  same_id : folio.id ≡ c.0
  of_stay : folio.reservation_id ≡ s.id
  opened : is_open folio.status ≡ true

folio_for-OnFolio :
    (j p : ℕ) (s : Reservation) (b : Books) (o : Option Folio)
    → ((f : Folio) → o ≡ some f → In f b.folios × (is_open_folio_of s.id f ≡ true))
    → OnFolio s (folio_for j p s b o)
folio_for-OnFolio j p s b none k = record {
  folio = new_folio j p s;
  here = In-append_last (new_folio j p s) b.folios;
  same_id = refl;
  of_stay = refl;
  opened = refl;
}
folio_for-OnFolio j p s b (some f) k =
    let (m, e) = k f refl in
    record {
      folio = f;
      here = m;
      same_id = refl;
      of_stay = ground (arith, e);
      opened = ground (arith, e);
    }

charged_folio-OnFolio :
    (j : ℕ) (input : PosChargeInput) (s : Reservation) (h : Hotel)
    → OnFolio s (charged_folio j input s h)
unfolding charged_folio
charged_folio-OnFolio j input s h =
    folio_for-OnFolio j input.property_id s h.books _
      (λ f e. In-select (is_open_folio_of s.id) f h.books.folios (pick_open_folio-In _ f e))

pub charged_folio-items :
    (j : ℕ) (input : PosChargeInput) (s : Reservation) (h : Hotel)
    → ((charged_folio j input s h).1.items ≡ h.books.items)
      × ((charged_folio j input s h).1.audit ≡ h.books.audit)
unfolding charged_folio
charged_folio-items j input s h = folio_for-items j input.property_id s h.books _

-- What a charge that commits has established: there is a stay that is checked in, in a room of the
-- property with that number, of a guest with that last name but for case; one item and one audit
-- entry are appended, the item on an open folio of the stay and with the total that is returned;
-- and nothing but the books changes.
pub record Guarded (lower : Text → Text) (input : PosChargeInput) (h h' : Hotel)
    (r : PosChargeResult) : Type 0 where
  pub stay : Reservation
  pub booked : In stay h.reservations
  pub at_property : stay.property_id ≡ input.property_id
  pub stays : stay.status ≡ checked_in
  pub room : Room
  pub in_room : room_of h.rooms stay.room_id ≡ some room
  pub numbered : room.number ≡ input.room_number
  pub named : lower stay.guest.last_name ≡ lower input.last_name
  pub item : FolioLineItem
  pub appended : h'.books.items ≡ h.books.items ++ item ∷ []
  pub totalled : item.total ≡ pos r.total
  pub folio : Folio
  pub listed : In folio h'.books.folios
  pub charged_on : folio.id ≡ item.folio_id
  pub of_stay : folio.reservation_id ≡ stay.id
  pub opened : is_open folio.status ≡ true
  pub audited : h'.books.audit ≡ h.books.audit ++ pos_audit input stay ∷ []
  pub unchanged : record h' { books = h.books } ≡ h

room_is-number :
    (active : Bool) (p : ℕ) (number : Text) (o : Option Room)
    → room_is active p number o ≡ true
    → (room : Room) × (o ≡ some room) × (room.number ≡ number)
room_is-number active p number none e = absurd (cc e)
room_is-number active p number (some room) e =
    (room, refl, ground (arith, e, same_text_iff room.number number))

credited-OnFolio :
    (s : Reservation) (amount : ℤ) (i : ℕ) (f : Folio)
    → let g = if f.id == i then credited amount f else f in
      (g.id ≡ f.id) × (g.reservation_id ≡ f.reservation_id) × (g.status ≡ f.status)
credited-OnFolio s amount i f = ground arith

stay_in_room-finds :
    (p : ℕ) (number : Text) (h : Hotel) (s : Reservation)
    → stay_in_room p number h ≡ some s
    → In s h.reservations × (is_stay false h.rooms p number s ≡ true)
unfolding stay_in_room
stay_in_room-finds p number h s e = (
  find-In (is_stay false h.rooms p number) h.reservations s e,
  find-true (is_stay false h.rooms p number) h.reservations s e,
)

is_stay-parts :
    (active : Bool) (rooms : List Room) (p : ℕ) (number : Text) (s : Reservation)
    → is_stay active rooms p number s ≡ true
    → (s.property_id ≡ p)
      × (s.status ≡ checked_in)
      × (room_is active p number (room_of rooms s.room_id) ≡ true)
is_stay-parts active rooms p number s e = (ground (arith, e), ground (arith, e), ground (arith, e))

-- A charge that is posted was posted behind the barrier: there is a stay of the property that is
-- checked in, in a room with that number, of a guest with that last name but for case; one item and
-- one audit entry are appended, the item on an open folio of the stay and with the total that is
-- returned; and nothing but the books changes.
pub post_charge-Guarded :
    (lower : Text → Text) (i j : ℕ) (now : Day) (input : PosChargeInput) (h h' : Hotel)
    (r : PosChargeResult)
    → pos_post_charge lower i j now input h ≡ charged r h'
    → Guarded lower input h h' r
post_charge-Guarded lower i j now input h h' r e =
    let (s, p, c) = post-Passed lower i j now input h h' r e in
    let (k, total) = charge_stay-books i j now input s h h' r c in
    let (m, q) = stay_in_room-finds input.property_id input.room_number h s p.found in
    let (property, status, inside) =
      is_stay-parts false h.rooms input.property_id input.room_number s q in
    let (room, in_room, number) =
      room_is-number false input.property_id input.room_number _ inside in
    let f = charged_folio-OnFolio j input s h in
    let (items, audit) = charged_folio-items j input s h in
    let x = charged_item i j now input s h in
    let (id_kept, stay_kept, status_kept) = credited-OnFolio s x.total x.folio_id f.folio in
    rw k (record {
      stay = s;
      booked = m;
      at_property = property;
      stays = status;
      room = room;
      in_room = in_room;
      numbered = number;
      named = p.named;
      item = x;
      appended = ap (λ z. z ++ x ∷ []) items;
      totalled = total;
      folio = if f.folio.id == x.folio_id then credited x.total f.folio else f.folio;
      listed =
          In-updated (has_folio_id x.folio_id) (credited x.total) f.folio
            (charged_folio j input s h).1.folios f.here;
      charged_on = id_kept ∙ f.same_id;
      of_stay = stay_kept ∙ f.of_stay;
      opened = ap is_open status_kept ∙ f.opened;
      audited = ap (λ z. z ++ pos_audit input s ∷ []) audit;
      unchanged = refl;
    })
