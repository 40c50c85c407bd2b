-- ===== src/Folios/Balance.antt =====
-- The balances of folios add up (packages/database/src/ledger.ts).
use hotelia.Prelude.{
  ℕ, ◌≡◌, refl, sym, ap, ◌∙◌, List, [], ◌∷◌, ◌++◌, Bool, true, false, All, arith, ◌==◌,
  if◌then◌else◌,
}
use hotelia.Prelude.Int.{ℤ, pos, ◌+ℤ◌, ◌-ℤ◌, int_laws}
use hotelia.Prelude.Table.{update}
use hotelia.Folios.Row.{Day, Folio, FolioLineItem, FolioTransfer, Report, Books, committed}
use hotelia.Folios.Service.{
  PostLineItemInput, ReverseLineItemInput, has_folio_id, credited, add_item, post_line_item,
  reverse_line_item,
}
use hotelia.Folios.Transfer.{
  TransferItemInput, debited, transfer_row, move_item, transfer_folio_item,
}
use hotelia.Folios.Closing.{CloseBusinessDayInput, close_business_day}

-- What the items on a folio come to.
unfoldable pub items_owed : ℕ → List FolioLineItem → ℤ
items_owed i [] = pos 0
items_owed i (x ∷ xs) = items_owed i xs +ℤ (if i == x.folio_id then x.total else pos 0)

-- What the transfers add to a folio and take from it.
unfoldable pub transfers_owed : ℕ → List FolioTransfer → ℤ
transfers_owed i [] = pos 0
transfers_owed i (x ∷ xs) =
    transfers_owed i xs
    -ℤ (if i == x.from_folio_id then x.amount else pos 0)
    +ℤ (if i == x.to_folio_id then x.amount else pos 0)

abbrev pub owed : ℕ → Books → ℤ
owed i b = items_owed i b.items +ℤ transfers_owed i b.transfers

-- Every balance is what the items and transfers come to.
abbrev pub IsBalanced : Books → Type 0
IsBalanced b = All (λ (f : Folio). f.balance ≡ owed f.id b) b.folios

items_owed-append :
    (i : ℕ) (xs : List FolioLineItem) (x : FolioLineItem)
    → items_owed i (xs ++ x ∷ []) ≡ items_owed i xs +ℤ (if i == x.folio_id then x.total else pos 0)
unfolding items_owed
items_owed-append i [] x = refl
items_owed-append i (y ∷ xs) x = rw (items_owed-append i xs x) (omega int_laws)

transfers_owed-append :
    (i : ℕ) (xs : List FolioTransfer) (x : FolioTransfer)
    → transfers_owed i (xs ++ x ∷ [])
      ≡ transfers_owed i xs
        -ℤ (if i == x.from_folio_id then x.amount else pos 0)
        +ℤ (if i == x.to_folio_id then x.amount else pos 0)
unfolding transfers_owed
transfers_owed-append i [] x = refl
transfers_owed-append i (y ∷ xs) x = rw (transfers_owed-append i xs x) (omega int_laws)

All-updated :
    {A : Type 0} (P Q : A → Type 0) (p : A → Bool) (f : A → A)
    → ((a : A) → P a → Q (if p a then f a else a))
    → (t : List A) → All P t
    → All Q (update p f t)
All-updated P Q p f k [] h = tt
All-updated P Q p f k (a ∷ t) h = (k a h.0, All-updated P Q p f k t h.1)

credit_row :
    (amount u v w : ℤ) (c : Bool) (f : Folio)
    → f.balance ≡ u +ℤ w
    → v ≡ u +ℤ (if c then amount else pos 0)
    → (if c then credited amount f else f).balance ≡ v +ℤ w
credit_row amount u v w true f e k = ap (λ z. z +ℤ amount) e ∙ rw k (omega int_laws)
credit_row amount u v w false f e k = e ∙ rw k (omega int_laws)

pub post-committed :
    (i : ℕ) (now : Day) (input : PostLineItemInput) (b b' : Books) (x : FolioLineItem)
    → post_line_item i now input b ≡ committed (x, b')
    → b' ≡ add_item x b
unfolding post_line_item
post-committed i now input b b' x h = ground (arith, h)

pub reverse-committed :
    (i : ℕ) (now : Day) (input : ReverseLineItemInput) (b b' : Books) (x : FolioLineItem)
    → reverse_line_item i now input b ≡ committed (x, b')
    → ((b'.folios ≡ (add_item x b).folios) × (b'.items ≡ (add_item x b).items))
      × (b'.transfers ≡ b.transfers)
unfolding reverse_line_item
reverse-committed i now input b b' x h = ground (arith, h)

pub transfer-committed :
    (input : TransferItemInput) (b b' : Books) (x : FolioLineItem)
    → transfer_folio_item input b ≡ committed (x, b')
    → b' ≡ move_item input x b
unfolding transfer_folio_item
transfer-committed input b b' x h = ground (arith, h)

pub close-committed :
    (input : CloseBusinessDayInput) (b b' : Books) (r : Report)
    → close_business_day input b ≡ committed (r, b')
    → ((b'.folios ≡ b.folios) × (b'.items ≡ b.items)) × (b'.transfers ≡ b.transfers)
unfolding close_business_day
close-committed input b b' r h = ground (arith, h)

-- The balances of these folios are right for these items and transfers.
abbrev pub Balanced : List FolioLineItem → List FolioTransfer → List Folio → Type 0
Balanced xs ts = All (λ (f : Folio). f.balance ≡ items_owed f.id xs +ℤ transfers_owed f.id ts)

credit-id : (c : Bool) (amount : ℤ) (f : Folio) → (if c then credited amount f else f).id ≡ f.id
credit-id c amount f = ground arith

pub add_item-Balanced :
    (x : FolioLineItem) (xs : List FolioLineItem) (ts : List FolioTransfer) (t : List Folio)
    → Balanced xs ts t
    → Balanced (xs ++ x ∷ []) ts (update (has_folio_id x.folio_id) (credited x.total) t)
add_item-Balanced x xs ts t h =
    All-updated _ (λ f. f.balance ≡ items_owed f.id (xs ++ x ∷ []) +ℤ transfers_owed f.id ts)
      (has_folio_id x.folio_id) (credited x.total)
      (λ f e. rw (credit-id (has_folio_id x.folio_id f) x.total f) (
        credit_row x.total (items_owed f.id xs) (items_owed f.id (xs ++ x ∷ []))
          (transfers_owed f.id ts) (has_folio_id x.folio_id f) f e (items_owed-append f.id xs x)))
      t h

debit_transfer :
    (amount u w : ℤ) (c : Bool) (f : Folio)
    → f.balance ≡ u +ℤ w
    → (if c then debited amount f else f).balance ≡ u +ℤ (w -ℤ (if c then amount else pos 0))
debit_transfer amount u w true f e = ap (λ z. z -ℤ amount) e ∙ omega int_laws
debit_transfer amount u w false f e = e ∙ omega int_laws

credit_transfer :
    (amount u v w : ℤ) (c : Bool) (f : Folio)
    → f.balance ≡ u +ℤ w
    → v ≡ w +ℤ (if c then amount else pos 0)
    → (if c then credited amount f else f).balance ≡ u +ℤ v
credit_transfer amount u v w true f e k = ap (λ z. z +ℤ amount) e ∙ rw k (omega int_laws)
credit_transfer amount u v w false f e k = e ∙ rw k (omega int_laws)

debit-id : (c : Bool) (amount : ℤ) (f : Folio) → (if c then debited amount f else f).id ≡ f.id
debit-id c amount f = ground arith

move_item-Balanced :
    (input : TransferItemInput) (x : FolioLineItem) (xs : List FolioLineItem)
    (ts : List FolioTransfer) (t : List Folio)
    → Balanced xs ts t
    → Balanced xs (ts ++ transfer_row input x ∷ []) (
        update
          (has_folio_id input.to_folio_id)
          (credited x.total)
          (update (has_folio_id input.from_folio_id) (debited x.total) t))
move_item-Balanced input x xs ts t h =
    let part : ℕ → ℤ =
      λ i. transfers_owed i ts -ℤ (if i == input.from_folio_id then x.total else pos 0) in
    All-updated (λ f. f.balance ≡ items_owed f.id xs +ℤ part f.id)
      (λ f. f.balance ≡ items_owed f.id xs +ℤ transfers_owed f.id (ts ++ transfer_row input x ∷ []))
      (has_folio_id input.to_folio_id) (credited x.total)
      (λ f e. rw (credit-id (has_folio_id input.to_folio_id f) x.total f) (
        credit_transfer x.total (items_owed f.id xs)
          (transfers_owed f.id (ts ++ transfer_row input x ∷ [])) (part f.id)
          (has_folio_id input.to_folio_id f) f e
          (transfers_owed-append f.id ts (transfer_row input x))))
      (update (has_folio_id input.from_folio_id) (debited x.total) t)
      (All-updated _ (λ f. f.balance ≡ items_owed f.id xs +ℤ part f.id)
        (has_folio_id input.from_folio_id) (debited x.total)
        (λ f e. rw (debit-id (has_folio_id input.from_folio_id f) x.total f) (
          debit_transfer x.total (items_owed f.id xs) (transfers_owed f.id ts)
            (has_folio_id input.from_folio_id f) f e))
        t h)

-- What the service may do to the tables.
pub data Step (b b' : Books) : Type 0 where
  posting :
      (i : ℕ) (now : Day) (input : PostLineItemInput) (x : FolioLineItem)
      → post_line_item i now input b ≡ committed (x, b')
      → Step b b'
  reversing :
      (i : ℕ) (now : Day) (input : ReverseLineItemInput) (x : FolioLineItem)
      → reverse_line_item i now input b ≡ committed (x, b')
      → Step b b'
  transferring :
      (input : TransferItemInput) (x : FolioLineItem)
      → transfer_folio_item input b ≡ committed (x, b')
      → Step b b'
  closing :
      (input : CloseBusinessDayInput) (r : Report)
      → close_business_day input b ≡ committed (r, b')
      → Step b b'

pub data Steps : Books → Books → Type 0 where
  stop : (b : Books) → Steps b b
  then_ : (b c d : Books) → Step b c → Steps c d → Steps b d

unchanged :
    (b b' : Books) (xs : List FolioLineItem) (t : List Folio)
    → b'.folios ≡ t
    → b'.items ≡ xs
    → b'.transfers ≡ b.transfers
    → Balanced xs b.transfers t
    → IsBalanced b'
unchanged b b' xs t e f g h = rw⁻¹ (sym e, sym f, sym g) h

Step-IsBalanced : (b b' : Books) → Step b b' → IsBalanced b → IsBalanced b'
Step-IsBalanced b b' (posting i now input x e) h =
    rw (post-committed i now input b b' x e) (add_item-Balanced x b.items b.transfers b.folios h)
Step-IsBalanced b b' (reversing i now input x e) h =
    let c = reverse-committed i now input b b' x e in
    unchanged b b' _ _ c.0.0 c.0.1 c.1 (add_item-Balanced x b.items b.transfers b.folios h)
Step-IsBalanced b b' (transferring input x e) h =
    rw (transfer-committed input b b' x e)
      (move_item-Balanced input x b.items b.transfers b.folios h)
Step-IsBalanced b b' (closing input r e) h =
    let c = close-committed input b b' r e in unchanged b b' _ _ c.0.0 c.0.1 c.1 h

-- If every balance is what the items and transfers come to, it is so after any sequence of
-- operations that commit.
pub Steps-IsBalanced : (b c : Books) → Steps b c → IsBalanced b → IsBalanced c
Steps-IsBalanced b c (stop a) h = h
Steps-IsBalanced b c (then_ a d e s p) h = Steps-IsBalanced d e p (Step-IsBalanced a d s h)
