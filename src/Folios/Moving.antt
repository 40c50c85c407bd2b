-- ===== src/Folios/Moving.antt =====
-- What a transfer between folios keeps, and what it does not keep apart
-- (packages/database/src/ledger.ts).
use hotelia.Prelude.{
  ℕ, ◌≡◌, refl, ◌∙◌, subst, inl, inr, List, [], ◌∷◌, some, true, false, arith, ◌==◌, Bool-cases,
  ==_iff,
}
use hotelia.Prelude.Int.{ℤ, pos, ◌+ℤ◌, ◌-ℤ◌, int_laws}
use hotelia.Prelude.Table.{find, update, Absent, Unique, Unique-update}
use hotelia.Folios.Row.{Folio, FolioLineItem, Books, committed}
use hotelia.Folios.Service.{is_item, has_folio_id, credited, business_day_is_open}
use hotelia.Folios.Transfer.{TransferItemInput, debited, has_folio, move_item, transfer_folio_item}
use hotelia.Folios.Balance.{transfer-committed}

-- The sum of all balances.
unfoldable pub total_balance : List Folio → ℤ
total_balance [] = pos 0
total_balance (f ∷ t) = f.balance +ℤ total_balance t

abbrev pub UniqueFolios : List Folio → Type 0
UniqueFolios = Unique (λ (f : Folio). f.id)

Absent-update_same :
    (i : ℕ) (g : Folio → Folio) (t : List Folio)
    → Absent (λ (f : Folio). f.id) i t
    → update (has_folio_id i) g t ≡ t
Absent-update_same i g [] h = refl
Absent-update_same i g (f ∷ t) h = ground (arith, h.0, Absent-update_same i g t h.1, ==_iff f.id i)

total-credited :
    (i p : ℕ) (amount : ℤ) (t : List Folio)
    → UniqueFolios t
    → has_folio i p t ≡ true
    → total_balance (update (has_folio_id i) (credited amount) t) ≡ total_balance t +ℤ amount
unfolding total_balance
total-credited i p amount [] u h = absurd (cc h)
total-credited i p amount (f ∷ t) u h = elim (Bool-cases (f.id == i)) [
  | inl e ↦
      rw
        (
          e,
          Absent-update_same i (credited amount) t
              (subst (λ j. Absent (λ (g : Folio). g.id) j t) ((==_iff f.id i).0 e) u.0),
        )
        (omega int_laws)
  | inr e ↦ rw (e, total-credited i p amount t u.1 (ground (arith, h, e))) (omega int_laws)
]

total-debited :
    (i p : ℕ) (amount : ℤ) (t : List Folio)
    → UniqueFolios t
    → has_folio i p t ≡ true
    → total_balance (update (has_folio_id i) (debited amount) t) ≡ total_balance t -ℤ amount
unfolding total_balance
total-debited i p amount [] u h = absurd (cc h)
total-debited i p amount (f ∷ t) u h = elim (Bool-cases (f.id == i)) [
  | inl e ↦
      rw
        (
          e,
          Absent-update_same i (debited amount) t
              (subst (λ j. Absent (λ (g : Folio). g.id) j t) ((==_iff f.id i).0 e) u.0),
        )
        (omega int_laws)
  | inr e ↦ rw (e, total-debited i p amount t u.1 (ground (arith, h, e))) (omega int_laws)
]

has_folio-update :
    (i j p : ℕ) (amount : ℤ) (t : List Folio)
    → has_folio i p (update (has_folio_id j) (debited amount) t) ≡ has_folio i p t
has_folio-update i j p amount [] = refl
has_folio-update i j p amount (f ∷ t) = ground (arith, has_folio-update i j p amount t)

debited-UniqueFolios :
    (i : ℕ) (amount : ℤ) (t : List Folio)
    → UniqueFolios t
    → UniqueFolios (update (has_folio_id i) (debited amount) t)
debited-UniqueFolios i amount t u =
    Unique-update (λ (f : Folio). f.id) (has_folio_id i) (debited amount) (λ f. refl) t u

-- What a transfer that commits has found.
record Found (input : TransferItemInput) (b : Books) (x : FolioLineItem) : Type 0 where
  item : find (is_item input.line_item_id) b.items ≡ some x
  elsewhere : (x.folio_id == input.to_folio_id) ≡ false
  source : has_folio input.from_folio_id input.property_id b.folios ≡ true
  target : has_folio input.to_folio_id input.property_id b.folios ≡ true
  day : business_day_is_open input.property_id x.business_date b.days ≡ true

transfer-Found :
    (input : TransferItemInput) (b b' : Books) (x : FolioLineItem)
    → transfer_folio_item input b ≡ committed (x, b')
    → Found input b x
unfolding transfer_folio_item
transfer-Found input b b' x h = record {
  item = ground (arith, h);
  elsewhere = ground (arith, h);
  source = ground (arith, h);
  target = ground (arith, h);
  day = ground (arith, h);
}

Found-transfer :
    (input : TransferItemInput) (b : Books) (x : FolioLineItem)
    → Found input b x
    → transfer_folio_item input b ≡ committed (x, move_item input x b)
unfolding transfer_folio_item
Found-transfer input b x f = ground (arith, f.item, f.elsewhere, f.source, f.target, f.day)

-- With unique folios, a transfer that commits keeps the sum of all balances.
pub transfer_conserves :
    (input : TransferItemInput) (b b' : Books) (x : FolioLineItem)
    → UniqueFolios b.folios
    → transfer_folio_item input b ≡ committed (x, b')
    → total_balance b'.folios ≡ total_balance b.folios
transfer_conserves input b b' x u h =
    let f = transfer-Found input b b' x h in
    rw (transfer-committed input b b' x h) (
      total-credited input.to_folio_id input.property_id x.total
        (update (has_folio_id input.from_folio_id) (debited x.total) b.folios)
        (debited-UniqueFolios input.from_folio_id x.total b.folios u)
        (has_folio-update input.to_folio_id input.from_folio_id input.property_id x.total b.folios
          ∙ f.target)
      ∙ rw (total-debited input.from_folio_id input.property_id x.total b.folios u f.source)
          (omega int_laws))

has_folio-credited :
    (i j p : ℕ) (amount : ℤ) (t : List Folio)
    → has_folio i p (update (has_folio_id j) (credited amount) t) ≡ has_folio i p t
has_folio-credited i j p amount [] = refl
has_folio-credited i j p amount (f ∷ t) = ground (arith, has_folio-credited i j p amount t)

-- A transfer that committed commits again with the same input, and moves the same item once more,
-- out of the same folio.
pub transfer_repeats :
    (input : TransferItemInput) (b b' : Books) (x : FolioLineItem)
    → transfer_folio_item input b ≡ committed (x, b')
    → transfer_folio_item input b' ≡ committed (x, move_item input x b')
transfer_repeats input b b' x h =
    let f = transfer-Found input b b' x h in
    rw (transfer-committed input b b' x h) (
      Found-transfer input (move_item input x b) x (record {
        item = f.item;
        elsewhere = f.elsewhere;
        source = moved input.from_folio_id f.source;
        target = moved input.to_folio_id f.target;
        day = f.day;
      }))
  where
    moved :
        (i : ℕ)
        → has_folio i input.property_id b.folios ≡ true
        → has_folio i input.property_id (move_item input x b).folios ≡ true
    moved i e =
        has_folio-credited i input.to_folio_id input.property_id x.total _
        ∙ has_folio-update i input.from_folio_id input.property_id x.total b.folios
        ∙ e
