-- ===== src/Folios/Transfer.antt =====
-- `transferFolioItem` (packages/database/src/ledger.ts).
use hotelia.Prelude.{
  ℕ, Text, List, [], ◌∷◌, ◌++◌, none, some, Bool, ◌&&◌, ◌==◌, if◌then◌else◌, is_some,
}
use hotelia.Prelude.Int.{ℤ, ◌-ℤ◌}
use hotelia.Prelude.Table.{find, update}
use hotelia.Folios.Row.{
  Folio, FolioLineItem, FolioTransfer, Books, business_day_closed, item_not_found, folio_mismatch,
  Result, raised, committed,
}
use hotelia.Folios.Service.{is_folio, is_item, has_folio_id, credited, business_day_is_open}

pub record TransferItemInput : Type 0 where
  pub property_id : ℕ
  pub line_item_id : ℕ
  pub from_folio_id : ℕ
  pub to_folio_id : ℕ
  pub reason : Text
  pub transferred_by : ℕ

-- `balance: { decrement: amount }`
abbrev pub debited : ℤ → Folio → Folio
debited amount f = record f { balance = f.balance -ℤ amount }

abbrev pub transfer_row : TransferItemInput → FolioLineItem → FolioTransfer
transfer_row input x = record {
  from_folio_id = input.from_folio_id;
  to_folio_id = input.to_folio_id;
  line_item_id = x.id;
  amount = x.total;
  reason = input.reason;
  transferred_by = input.transferred_by;
}

-- The statements of `transferFolioItem` that write.
abbrev pub move_item : TransferItemInput → FolioLineItem → Books → Books
move_item input x b = record b {
  transfers = b.transfers ++ transfer_row input x ∷ [];
  folios =
      update (has_folio_id input.to_folio_id) (credited x.total)
        (update (has_folio_id input.from_folio_id) (debited x.total) b.folios);
}

abbrev pub has_folio : ℕ → ℕ → List Folio → Bool
has_folio i p t = is_some (find (is_folio i p) t)

abbrev pub transfer_found :
    TransferItemInput → Books → FolioLineItem → Result (FolioLineItem × Books)
transfer_found input b x =
    if x.folio_id == input.to_folio_id
    then raised folio_mismatch
    else if has_folio input.from_folio_id input.property_id b.folios
        && has_folio input.to_folio_id input.property_id b.folios
    then if business_day_is_open input.property_id x.business_date b.days
      then committed (x, move_item input x b)
      else raised business_day_closed
    else raised folio_mismatch

unfoldable pub transfer_folio_item : TransferItemInput → Books → Result (FolioLineItem × Books)
unfolding business_day_is_open
transfer_folio_item input b = elim (find (is_item input.line_item_id) b.items) [
  | none ↦ raised item_not_found
  | some x ↦ transfer_found input b x
]
