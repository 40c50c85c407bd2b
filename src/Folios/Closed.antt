-- ===== src/Folios/Closed.antt =====
-- What a closed business day keeps out, and what its report says (packages/database/src/ledger.ts).
use hotelia.Prelude.{
  ℕ, ◌≡◌, ◌≢◌, refl, inl, inr, List, [], ◌∷◌, ◌++◌, some, true, false, arith, Bool-cases, is_some,
}
use hotelia.Prelude.Int.{◌+ℤ◌, ◌-ℤ◌, int_laws}
use hotelia.Prelude.Table.{select, find, update}
use hotelia.Folios.Row.{
  Day, same_day, FolioLineItem, BusinessDay, Report, Books, committed, is_closed,
}
use hotelia.Folios.Service.{
  PostLineItemInput, ReverseLineItemInput, is_day, is_item, business_day_is_open, post_line_item,
  reverse_line_item,
}
use hotelia.Folios.Transfer.{TransferItemInput, transfer_folio_item}
use hotelia.Folios.Closing.{
  CloseBusinessDayInput, is_dated, sum_of, report_of, upsert_day, closed_day, close_business_day,
}
use hotelia.Folios.Balance.{
  Step, posting, reversing, transferring, closing, Steps, stop, then_, post-committed,
  transfer-committed,
}

-- The property has the day, and it is closed.
abbrev pub IsClosed : ℕ → Day → List BusinessDay → Type 0
IsClosed p d t = business_day_is_open p d t ≡ false

update-IsClosed :
    (p q : ℕ) (d e : Day) (r : Report) (t : List BusinessDay)
    → IsClosed p d t
    → IsClosed p d (update (is_day q e) (closed_day r) t)
unfolding business_day_is_open
update-IsClosed p q d e r [] h = absurd (cc (h))
update-IsClosed p q d e r (b ∷ t) h = ground (arith, h, update-IsClosed p q d e r t)

update-closes :
    (p : ℕ) (d : Day) (r : Report) (t : List BusinessDay)
    → is_some (find (is_day p d) t) ≡ true
    → IsClosed p d (update (is_day p d) (closed_day r) t)
unfolding business_day_is_open
update-closes p d r [] h = absurd (cc (h))
update-closes p d r (b ∷ t) h = ground (arith, h, update-closes p d r t)

append-IsClosed :
    (p : ℕ) (d : Day) (t u : List BusinessDay) → IsClosed p d t → IsClosed p d (t ++ u)
unfolding business_day_is_open
append-IsClosed p d [] u h = absurd (cc (h))
append-IsClosed p d (b ∷ t) u h = ground (arith, h, append-IsClosed p d t u)

append-closes :
    (p : ℕ) (d : Day) (c : BusinessDay) (t : List BusinessDay)
    → is_some (find (is_day p d) t) ≡ false
    → is_day p d c ≡ true
    → is_closed c.status ≡ true
    → IsClosed p d (t ++ c ∷ [])
unfolding business_day_is_open
append-closes p d c [] h m k = ground (arith, m, k)
append-closes p d c (b ∷ t) h m k = ground (arith, h, append-closes p d c t, m, k)

same_day_refl : (d : Day) → same_day d d ≡ true
same_day_refl d = ground arith

upsert-IsClosed :
    (p : ℕ) (d : Day) (input : CloseBusinessDayInput) (r : Report) (t : List BusinessDay)
    → IsClosed p d t
    → IsClosed p d (upsert_day input r t)
unfolding upsert_day
upsert-IsClosed p d input r t h =
    elim (Bool-cases (is_some (find (is_day input.property_id input.business_date) t))) [
      | inl e ↦ rw e (update-IsClosed p input.property_id d input.business_date r t h)
      | inr e ↦ rw e (append-IsClosed p d t _ h)
    ]

upsert-closes :
    (input : CloseBusinessDayInput) (r : Report) (t : List BusinessDay)
    → IsClosed input.property_id input.business_date (upsert_day input r t)
unfolding upsert_day
upsert-closes input r t =
    elim (Bool-cases (is_some (find (is_day input.property_id input.business_date) t))) [
      | inl e ↦ rw e (update-closes input.property_id input.business_date r t e)
      | inr e ↦ rw e (
          append-closes input.property_id input.business_date _ t e
            (ground (arith, same_day_refl input.business_date)) refl)
    ]

close-days :
    (input : CloseBusinessDayInput) (b b' : Books) (r : Report)
    → close_business_day input b ≡ committed (r, b')
    → b'.days ≡ upsert_day input r b.days
unfolding close_business_day
close-days input b b' r h = ground (arith, h)

reverse-days :
    (i : ℕ) (now : Day) (input : ReverseLineItemInput) (b b' : Books) (x : FolioLineItem)
    → reverse_line_item i now input b ≡ committed (x, b')
    → b'.days ≡ b.days
unfolding reverse_line_item
reverse-days i now input b b' x h = ground (arith, h)

Step-IsClosed :
    (p : ℕ) (d : Day) (b b' : Books) → Step b b' → IsClosed p d b.days → IsClosed p d b'.days
Step-IsClosed p d b b' (posting i now input x e) h = rw (post-committed i now input b b' x e) h
Step-IsClosed p d b b' (reversing i now input x e) h = rw (reverse-days i now input b b' x e) h
Step-IsClosed p d b b' (transferring input x e) h = rw (transfer-committed input b b' x e) h
Step-IsClosed p d b b' (closing input r e) h =
    rw (close-days input b b' r e) (upsert-IsClosed p d input r b.days h)

Steps-IsClosed :
    (p : ℕ) (d : Day) (b c : Books) → Steps b c → IsClosed p d b.days → IsClosed p d c.days
Steps-IsClosed p d b c (stop a) h = h
Steps-IsClosed p d b c (then_ a m e s q) h = Steps-IsClosed p d m e q (Step-IsClosed p d a m s h)

closed_post :
    (i : ℕ) (now d : Day) (input : PostLineItemInput) (b : Books) (y : FolioLineItem × Books)
    → input.business_date ≡ some d
    → IsClosed input.property_id d b.days
    → post_line_item i now input b ≢ committed y
unfolding post_line_item
closed_post i now d input b y k c e = ground (arith, k, c, e)

closed_transfer :
    (input : TransferItemInput) (b : Books) (x : FolioLineItem) (y : FolioLineItem × Books)
    → find (is_item input.line_item_id) b.items ≡ some x
    → IsClosed input.property_id x.business_date b.days
    → transfer_folio_item input b ≢ committed y
unfolding transfer_folio_item
closed_transfer input b x y f c e = ground (arith, f, c, e)

pub closes-IsClosed :
    (close : CloseBusinessDayInput) (b b' : Books) (r : Report)
    → close_business_day close b ≡ committed (r, b')
    → IsClosed close.property_id close.business_date b'.days
closes-IsClosed close b b' r closes =
    rw (close-days close b b' r closes) (upsert-closes close r b.days)

module _ (close : CloseBusinessDayInput) (b b' c : Books) (r : Report)
    (closes : close_business_day close b ≡ committed (r, b')) (later : Steps b' c) where
  still-IsClosed : IsClosed close.property_id close.business_date c.days
  still-IsClosed =
      Steps-IsClosed close.property_id close.business_date b' c later
        (closes-IsClosed close b b' r closes)

  -- Once a day was closed, and whatever commits then, no charge that names the day commits for the
  -- property.
  pub closed_day_refuses_posts :
      (i : ℕ) (now : Day) (input : PostLineItemInput) (y : FolioLineItem × Books)
      → input.property_id ≡ close.property_id
      → input.business_date ≡ some close.business_date
      → post_line_item i now input c ≢ committed y
  closed_day_refuses_posts i now input y p d =
      closed_post i now close.business_date input c y d (rw p still-IsClosed)

  -- Once a day was closed, and whatever commits then, no transfer of an item of that day commits in
  -- the property.
  closed_day_refuses_transfers :
      (input : TransferItemInput) (x : FolioLineItem) (y : FolioLineItem × Books)
      → input.property_id ≡ close.property_id
      → find (is_item input.line_item_id) c.items ≡ some x
      → x.business_date ≡ close.business_date
      → transfer_folio_item input c ≢ committed y
  closed_day_refuses_transfers input x y p f d =
      closed_transfer input c x y f (rw (p, d) still-IsClosed)

  -- Once a day was closed, and whatever commits then, no second closing of that day commits.
  closed_day_stays :
      (again : CloseBusinessDayInput) (y : Report × Books)
      → again.property_id ≡ close.property_id
      → again.business_date ≡ close.business_date
      → close_business_day again c ≢ committed y
  unfolding close_business_day
  closed_day_stays again y p d e = ground (arith, still-IsClosed, p, d, e)

sum_of-parts :
    (xs : List FolioLineItem)
    → sum_of (λ x. x.total -ℤ x.tax_amount) xs +ℤ sum_of (λ x. x.tax_amount) xs
      ≡ sum_of (λ x. x.total) xs
unfolding sum_of
sum_of-parts [] = omega int_laws
sum_of-parts (x ∷ xs) = rw⁻¹ (sum_of-parts xs) (omega int_laws)

-- The net revenue and the tax of a closed day add up to the totals of all items with that date, of
-- whatever property.
close_adds_up :
    (input : CloseBusinessDayInput) (b b' : Books) (r : Report)
    → close_business_day input b ≡ committed (r, b')
    → r.net_revenue +ℤ r.tax_collected
      ≡ sum_of (λ x. x.total) (select (is_dated input.business_date) b.items)
unfolding close_business_day report_of
close_adds_up input b b' r h =
    ground (arith, h, sum_of-parts (select (is_dated input.business_date) b.items))
