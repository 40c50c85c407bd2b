-- ===== src/Inventory/Channels.antt =====
-- `lockChannelInventory` (packages/database/src/inventory.ts). Of a row, the columns that the
-- transaction reads or writes.
use hotelia.Prelude.{
  ℕ, zero, suc, ◌+◌, ◌-◌, ◌≡◌, refl, ap, ◌∙◌, List, none, some, Bool, arith, ◌==◌, if◌then◌else◌,
  Text, ◌&&◌, same_text, min, ==_iff,
}
use hotelia.Prelude.Int.{ℤ, pos, ◌-ℤ◌, ltb_ℤ}
use hotelia.Prelude.Table.{find, find-update_found, update}
use hotelia.Inventory.Rooms.{sold_out, inventory_not_found, Outcome, raised, committed}

pub data RoomType : Type 0 where
  standard superior deluxe suite penthouse villa : RoomType

abbrev room_type_code : RoomType → ℕ
room_type_code standard = 0
room_type_code superior = 1
room_type_code deluxe = 2
room_type_code suite = 3
room_type_code penthouse = 4
room_type_code villa = 5

pub record ChannelInventory : Type 0 where
  pub id : ℕ
  pub property_id : ℕ
  pub room_type : RoomType
  pub channel : Text
  pub date : ℕ
  pub available : ℤ
  pub last_synced_at : ℕ

pub record LockChannelInventoryInput : Type 0 where
  pub property_id : ℕ
  pub channel : Text
  pub date : ℕ
  pub room_type : RoomType

abbrev pub is_row : LockChannelInventoryInput → ChannelInventory → Bool
is_row k r =
    r.property_id == k.property_id
    && room_type_code r.room_type == room_type_code k.room_type
    && same_text r.channel k.channel
    && r.date == k.date

abbrev pub has_row_id : ℕ → ChannelInventory → Bool
has_row_id i r = r.id == i

abbrev pub set_available : ℤ → ℕ → ChannelInventory → ChannelInventory
set_available n now r = record r { available = n; last_synced_at = now }

-- The result is the number of rooms that are left for the channel.
unfoldable pub lock_channel_inventory :
    ℕ → LockChannelInventoryInput → List ChannelInventory → Outcome (ℤ × List ChannelInventory)
lock_channel_inventory now k t = elim (find (is_row k) t) [
  | none ↦ raised inventory_not_found
  | some r ↦
      if ltb_ℤ (pos 0) r.available
      then committed (
        r.available -ℤ pos 1,
        update (has_row_id r.id) (set_available (r.available -ℤ pos 1) now) t,
      )
      else raised sold_out
]

-- The table after a call.
abbrev pub after_call :
    Outcome (ℤ × List ChannelInventory) → List ChannelInventory → List ChannelInventory
after_call (raised e) t = t
after_call (committed (n, u)) t = u

abbrev pub sold_by : Outcome (ℤ × List ChannelInventory) → ℕ
sold_by (raised e) = 0
sold_by (committed r) = 1

-- n calls in a row, the first at the time `now`: how many commit, and the table at the end.
unfoldable pub sell :
    ℕ → ℕ → LockChannelInventoryInput → List ChannelInventory → ℕ × List ChannelInventory
unfolding lock_channel_inventory
sell zero now k t = (0, t)
sell (suc n) now k t =
    let o = lock_channel_inventory now k t in
    let (m, u) = sell n (now + 1) k (after_call o t) in (sold_by o + m, u)

sold_out_raises :
    (now : ℕ) (k : LockChannelInventoryInput) (t : List ChannelInventory) (r : ChannelInventory)
    → find (is_row k) t ≡ some r
    → r.available ≡ pos 0
    → lock_channel_inventory now k t ≡ raised sold_out
unfolding lock_channel_inventory
sold_out_raises now k t r e h = ground (arith, e, h)

sells_one :
    (now a : ℕ) (k : LockChannelInventoryInput) (t : List ChannelInventory) (r : ChannelInventory)
    → find (is_row k) t ≡ some r
    → r.available ≡ pos (suc a)
    → lock_channel_inventory now k t
      ≡ committed (pos a, update (has_row_id r.id) (set_available (pos a) now) t)
unfolding lock_channel_inventory ◌-ℤ◌
sells_one now a k t r e h = ground (arith, e, h)

set_available-is_row :
    (k : LockChannelInventoryInput) (n : ℤ) (now : ℕ) (r : ChannelInventory)
    → is_row k (set_available n now r) ≡ is_row k r
set_available-is_row k n now r = refl

row_left :
    (k : LockChannelInventoryInput) (n : ℤ) (now : ℕ) (t : List ChannelInventory)
    (r : ChannelInventory)
    → find (is_row k) t ≡ some r
    → find (is_row k) (update (has_row_id r.id) (set_available n now) t)
      ≡ some (set_available n now r)
row_left k n now t r e =
    find-update_found (is_row k) (has_row_id r.id) (set_available n now)
      (set_available-is_row k n now) t r e ((==_iff r.id r.id).1 refl)

sells_none :
    (n now : ℕ) (k : LockChannelInventoryInput) (t : List ChannelInventory) (r : ChannelInventory)
    → find (is_row k) t ≡ some r
    → r.available ≡ pos 0
    → sell n now k t ≡ (0, t)
unfolding sell
sells_none zero now k t r e h = refl
sells_none (suc n) now k t r e h =
    rw (sold_out_raises now k t r e h, sells_none n (now + 1) k t r e h) refl

-- With a rooms available on the row of a channel, n calls for it commit exactly min n a times, and
-- leave a - n rooms available, or none.
pub sell-min :
    (n now a : ℕ) (k : LockChannelInventoryInput) (t : List ChannelInventory) (r : ChannelInventory)
    → find (is_row k) t ≡ some r
    → r.available ≡ pos a
    → ((sell n now k t).0 ≡ min n a)
      × (s : ChannelInventory) × (find (is_row k) (sell n now k t).1 ≡ some s)
      × (s.available ≡ pos (a - n))
unfolding sell
sell-min zero now a k t r e h = (omega arith, r, e, ground (arith, h))
sell-min (suc n) now zero k t r e h =
    rw (sold_out_raises now k t r e h, sells_none n (now + 1) k t r e h)
      (omega arith, r, e, h ∙ ap pos (omega arith))
sell-min (suc n) now (suc a) k t r e h =
    let (q, s, f, g) =
      sell-min n (now + 1) a k (update (has_row_id r.id) (set_available (pos a) now) t)
        (set_available (pos a) now r) (row_left k (pos a) now t r e) refl in
    rw (sells_one now a k t r e h) (omega (arith, q), s, f, g ∙ ap pos (omega arith))
