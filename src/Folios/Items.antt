-- ===== src/Folios/Items.antt =====
-- Line items are only ever added, and an item is reversed once (packages/database/src/ledger.ts).
use hotelia.Prelude.{
  ℕ, ◌≡◌, refl, sym, ap, ◌∙◌, inl, inr, List, [], ◌∷◌, ◌++◌, none, some, Bool, true, arith,
  Option-cases,
}
use mathlib.Core.List.{append-nil, append_assoc}
use hotelia.Prelude.Table.{find, find-append_some, find-append_none}
use hotelia.Folios.Row.{Day, FolioLineItem, Books, raised, committed, item_already_reversed}
use hotelia.Folios.Service.{
  ReverseLineItemInput, reverses, is_item, reverse_line_item, reversal_item,
}
use hotelia.Folios.Balance.{
  Step, posting, reversing, transferring, closing, Steps, stop, then_, post-committed,
  reverse-committed, transfer-committed, close-committed,
}

Step-items : (b b' : Books) → Step b b' → (ys : List FolioLineItem) × (b'.items ≡ b.items ++ ys)
Step-items b b' (posting i now input x e) =
    (x ∷ [], ap (λ (z : Books). z.items) (post-committed i now input b b' x e))
Step-items b b' (reversing i now input x e) = (x ∷ [], (reverse-committed i now input b b' x e).0.1)
Step-items b b' (transferring input x e) =
    ([], ap (λ (z : Books). z.items) (transfer-committed input b b' x e) ∙ sym (append-nil b.items))
Step-items b b' (closing input r e) =
    ([], (close-committed input b b' r e).0.1 ∙ sym (append-nil b.items))

-- No sequence of operations changes or removes a line item: those of the start come first at the end.
pub Steps-items : (b c : Books) → Steps b c → (ys : List FolioLineItem) × (c.items ≡ b.items ++ ys)
Steps-items b c (stop a) = ([], sym (append-nil a.items))
Steps-items b c (then_ a d e s p) =
    let (ys, h) = Step-items a d s in
    let (zs, k) = Steps-items d e p in
    (ys ++ zs, k ∙ ap (λ z. z ++ zs) h ∙ append_assoc a.items ys zs)

reverse_found-known :
    (i : ℕ) (now : Day) (input : ReverseLineItemInput) (b : Books) (x y : FolioLineItem)
    → find (is_item input.line_item_id) b.items ≡ some x
    → find (reverses x.id) b.items ≡ some y
    → reverse_line_item i now input b ≡ raised item_already_reversed
unfolding reverse_line_item
reverse_found-known i now input b x y e f = ground (arith, e, f)

-- What a reversal that commits has found and has written.
reverse-found :
    (i : ℕ) (now : Day) (input : ReverseLineItemInput) (b b' : Books) (y : FolioLineItem)
    → reverse_line_item i now input b ≡ committed (y, b')
    → (x : FolioLineItem) × (find (is_item input.line_item_id) b.items ≡ some x)
      × (find (reverses x.id) b.items ≡ none)
      × (y ≡ reversal_item i now input x)
unfolding reverse_line_item
reverse-found i now input b b' y h =
    elim (Option-cases (find (is_item input.line_item_id) b.items)) [
      | inl e ↦ absurd (ground (arith, h, e))
      | inr (x, e) ↦ elim (Option-cases (find (reverses x.id) b.items)) [
        | inl f ↦ (x, e, f, ground (arith, h, e, f))
        | inr (z, f) ↦ absurd (cc (h, reverse_found-known i now input b x z e f))
      ]
    ]

reversal_item-reverses :
    (i : ℕ) (now : Day) (input : ReverseLineItemInput) (x : FolioLineItem)
    → reverses x.id (reversal_item i now input x) ≡ true
reversal_item-reverses i now input x = ground arith

find-appended :
    (p : FolioLineItem → Bool) (xs ys zs : List FolioLineItem) (y : FolioLineItem)
    → find p xs ≡ none
    → p y ≡ true
    → find p ((xs ++ y ∷ ys) ++ zs) ≡ some y
find-appended p xs ys zs y e h =
    find-append_some p (xs ++ y ∷ ys) zs y (find-append_none p xs (y ∷ ys) e ∙ rw h refl)

-- After a reversal that committed, and whatever commits then, every further reversal of the same
-- item raises `item_already_reversed`.
pub reverse_once :
    (i j : ℕ) (now later : Day) (input again : ReverseLineItemInput) (b b' c : Books)
    (y : FolioLineItem)
    → reverse_line_item i now input b ≡ committed (y, b')
    → Steps b' c
    → again.line_item_id ≡ input.line_item_id
    → reverse_line_item j later again c ≡ raised item_already_reversed
reverse_once i j now later input again b b' c y h s l =
    let (x, e, f, k) = reverse-found i now input b b' y h in
    let (zs, q) = Steps-items b' c s in
    let items : c.items ≡ (b.items ++ y ∷ []) ++ zs =
      q ∙ ap (λ z. z ++ zs) (reverse-committed i now input b b' y h).0.1 in
    reverse_found-known j later again c x y
      (rw (l, items)
        (find-append_some (is_item input.line_item_id) (b.items ++ y ∷ []) zs x
          (find-append_some (is_item input.line_item_id) b.items (y ∷ []) x e)))
      (rw items (
        find-appended (reverses x.id) b.items [] zs y f
          (ap (reverses x.id) k ∙ reversal_item-reverses i now input x)))
