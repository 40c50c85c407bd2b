-- ===== src/Console/Palette.antt =====
-- The command palette (apps/console/src/renderer/palette.tsx): the commands, the filter, the cursor
-- and its keys. `lower` stands for `String.toLowerCase`. The cursor may be -1. A command is run by
-- what it does: it switches the view, reveals a room or reloads the page.
pub mod Cursor
use hotelia.Prelude.{
  ℕ, zero, suc, ◌+◌, ◌-◌, ◌<◌, ◌≤◌, ◌≡◌, ◌⊎◌, inl, inr, refl, Text, codes, List, [], ◌∷◌, ◌++◌,
  Option, none, some, Bool, true, false, ◌||◌, ltb, if◌then◌else◌, same_text, starts_with, length,
  map, arith, get_elem?, Bool-cases, ◌==◌,
}
use hotelia.Prelude.Int.{ℤ, pos, negsuc}
use hotelia.Prelude.Table.{select}
use hotelia.Inventory.Channels.{RoomType, standard, superior, deluxe, suite, penthouse, villa}
use hotelia.Pms.Board.{FrontDeskRoom, FrontDeskBoard, GuestName}
use hotelia.Console.Rooms.{status_name}
use hotelia.Console.Store.{
  ViewKey, view_name, frontdesk, housekeeping, pos as pos_view, messaging, workorders, revenue,
  reconciliation, settings,
}

pub data Action : Type 0 where
  navigates : ViewKey → Action
  reveals : Text → Action
  reloads : Action

pub record PaletteCommand : Type 0 where
  pub id : Text
  pub label : Text
  pub group : Text
  pub keywords : List Text
  pub run : Action

-- `String.includes`
includes : Text → Text → Bool
unfolding starts_with
includes q [] = starts_with q []
includes q (c ∷ t) = starts_with q (c ∷ t) || includes q t

some_includes : (Text → Text) → Text → List Text → Bool
unfolding includes
some_includes lower q [] = false
some_includes lower q (k ∷ ks) = includes q (lower k) || some_includes lower q ks

abbrev is_hit : (Text → Text) → Text → PaletteCommand → Bool
unfolding some_includes
is_hit lower q c = includes q (lower c.label) || some_includes lower q c.keywords

-- `filtered`
unfoldable pub filtered : (Text → Text) → List PaletteCommand → Text → List PaletteCommand
unfolding is_hit
filtered lower commands [] = commands
filtered lower commands (c ∷ q) = select (is_hit lower (lower (c ∷ q))) commands

abbrev view_command : ViewKey → Text → PaletteCommand
unfolding view_name
view_command v label = record {
  id = view_name v;
  label = label;
  group = codes "views";
  keywords = [];
  run = navigates v;
}

abbrev refresh_command : PaletteCommand
refresh_command = record {
  id = codes "refresh";
  label = codes "Refresh board";
  group = codes "actions";
  keywords = [];
  run = reloads;
}

unfoldable pub view_commands : List PaletteCommand
unfolding view_command
view_commands =
    view_command frontdesk (codes "Front Desk")
    ∷ view_command housekeeping (codes "Housekeeping")
    ∷ view_command pos_view (codes "POS")
    ∷ view_command messaging (codes "Messaging")
    ∷ view_command workorders (codes "Work Orders")
    ∷ view_command revenue (codes "Revenue")
    ∷ view_command reconciliation (codes "Reconciliation")
    ∷ view_command settings (codes "Settings")
    ∷ refresh_command
    ∷ []

abbrev type_name : RoomType → Text
type_name standard = codes "STANDARD"
type_name superior = codes "SUPERIOR"
type_name deluxe = codes "DELUXE"
type_name suite = codes "SUITE"
type_name penthouse = codes "PENTHOUSE"
type_name villa = codes "VILLA"

-- `replace(/_/g, ' ')`
abbrev spaced : Text → Text
spaced t = map (λ c. if c == b'_' then 32 else c) t

last_names : List GuestName → Text
last_names [] = []
last_names (g ∷ []) = g.last_name
last_names (g ∷ h ∷ gs) = g.last_name ++ codes ", " ++ last_names (h ∷ gs)

abbrev occupants : List GuestName → Text
unfolding last_names
occupants [] = []
occupants (g ∷ gs) = codes " · " ++ last_names (g ∷ gs)

both_names : List GuestName → List Text
both_names [] = []
both_names (g ∷ gs) = g.first_name ∷ g.last_name ∷ both_names gs

abbrev room_command : (Text → Text) → FrontDeskRoom → PaletteCommand
unfolding occupants both_names
room_command lower r = record {
  id = codes "room-" ++ r.number;
  label =
      codes "Room "
      ++ r.number
      ++ codes " — "
      ++ spaced (lower (status_name r.status))
      ++ occupants r.occupancy;
  group = codes "rooms";
  keywords = r.number ∷ status_name r.status ∷ type_name r.type ∷ both_names r.occupancy;
  run = reveals r.number;
}

abbrev board_rooms : Option FrontDeskBoard → List FrontDeskRoom
board_rooms none = []
board_rooms (some b) = b.rooms

-- `usePaletteCommands`
unfoldable pub palette_commands : (Text → Text) → Option FrontDeskBoard → List PaletteCommand
unfolding view_commands room_command
palette_commands lower b = view_commands ++ map (room_command lower) (board_rooms b)

-- The palette: `ran` has the commands that were run, latest first.
pub record Palette : Type 0 where
  pub shown : Bool
  pub query : Text
  pub cursor : ℤ
  pub ran : List PaletteCommand

-- The effect of `open`
unfoldable pub open_palette : Palette → Palette
open_palette s = record s { shown = true; query = []; cursor = pos 0 }

abbrev pub close : Palette → Palette
close s = record s { shown = false }

-- `Math.min(c + 1, n - 1)`
abbrev pub step_down : ℤ → ℕ → ℤ
step_down c zero = negsuc 0
step_down (negsuc zero) (suc n) = pos 0
step_down (negsuc (suc c)) (suc n) = negsuc c
step_down (pos c) (suc n) = if ltb c n then pos (c + 1) else pos n

-- `Math.max(c - 1, 0)`
abbrev pub step_up : ℤ → ℤ
step_up (negsuc c) = pos 0
step_up (pos c) = pos (c - 1)

-- `filtered[cursor]`
abbrev pub at_cursor : List PaletteCommand → ℤ → Option PaletteCommand
at_cursor l (negsuc c) = none
at_cursor l (pos c) = get_elem? l c

pub data PaletteEvent : Type 0 where
  types : Text → PaletteEvent
  arrow_down arrow_up enter escape : PaletteEvent
  hovers : ℕ → PaletteEvent
  clicks : ℕ → PaletteEvent

abbrev pub run_command : Option PaletteCommand → Palette → Palette
run_command none s = s
run_command (some c) s = record s { ran = c ∷ s.ran; shown = false }

-- One event of an open palette, with the commands that pass the filter. A new query puts the cursor first. An item that
-- is not shown is neither hovered nor clicked.
abbrev pub react : List PaletteCommand → PaletteEvent → Palette → Palette
react l (types q) s = if same_text q s.query then s else record s { query = q; cursor = pos 0 }
react l arrow_down s = record s { cursor = step_down s.cursor (length l) }
react l arrow_up s = record s { cursor = step_up s.cursor }
react l enter s = run_command (at_cursor l s.cursor) s
react l escape s = close s
react l (hovers i) s = if ltb i (length l) then record s { cursor = pos i } else s
react l (clicks i) s = run_command (get_elem? l i) s

unfoldable pub on_event : (Text → Text) → List PaletteCommand → PaletteEvent → Palette → Palette
unfolding filtered
on_event lower commands e s = if s.shown then react (filtered lower commands s.query) e s else s

unfoldable pub on_events :
    (Text → Text) → List PaletteCommand → List PaletteEvent → Palette → Palette
unfolding on_event
on_events lower commands [] s = s
on_events lower commands (e ∷ es) s = on_events lower commands es (on_event lower commands e s)
