-- ===== src/Console/Tests.antt =====
-- A console for the tests: a main process after boot, and the world around it.
mod Calls
mod Sale
mod Desk
use hotelia.Prelude.{ℕ, ◌-◌, ◌+◌, Text, codes, [], ◌∷◌, Option, none, some, true, false}
use hotelia.Prelude.Int.{ℤ, pos}
use hotelia.Hardware.Channel.{received, tcp}
use hotelia.Hardware.Bridge.{Bridge, Wire, LockDevice}
use hotelia.Inventory.Rooms.{occupied_clean}
use hotelia.Inventory.Channels.{deluxe}
use hotelia.Folios.Row.{Day, Books}
use hotelia.Pms.Row.{checked_in, Room, Reservation, Hotel}
use hotelia.Console.Main.{World, Main}
use hotelia.Console.Sound.{IsWell}
use hotelia.Console.History.{calls}

-- The identifiers on the wire are p0 to p9.
abbrev pub uuid : Text → Option ℕ
uuid (c ∷ d ∷ []) = some (d - 48)
uuid _ = none

abbrev pub print : ℕ → Text
print i = 112 ∷ (48 + i) ∷ []

abbrev pub same_case : Text → Text
same_case t = t

abbrev pub today : Day
today = record { year = 2025; month = 6; day = 3 }

-- Every encoder acknowledges.
abbrev pub wire : Wire
wire = record {
  socket = λ _ _. received (codes "OK") ∷ [];
  asked_at = λ n. 1000 + n;
  settled_at = λ n. 1000 + n;
  fresh_id = λ n. 70 + n;
  claim_time = λ n. 2000 + n;
  mark_time = λ n. 2000 + n;
}

abbrev pub world : World
world = record {
  zod = record { uuid = uuid; wording = λ _. codes "Invalid" };
  wire = wire;
  lower = same_case;
  number_before = λ _ _. false;
  load = none;
  fresh = λ n. 50 + n;
  fresh_folio = λ n. 80 + n;
  now = λ n. 5000 + n;
  today = λ _. today;
  missing_row = codes "no row";
}

abbrev pub stay : Reservation
stay = record {
  id = 21;
  property_id = 7;
  guest = record { id = 31; first_name = codes "Amina"; last_name = codes "otieno" };
  room_id = some 3;
  confirmation_no = codes "A1";
  status = checked_in;
  check_in_date = today;
  check_out_date = record { year = 2025; month = 6; day = 4 };
  currency = codes "KES";
}

abbrev pub room : Room
room = record {
  id = 3;
  property_id = 7;
  number = codes "204";
  floor = some 2;
  type = deluxe;
  status = occupied_clean;
  base_rate = none;
  is_active = true;
}

abbrev pub books : Books
books = record { folios = []; items = []; transfers = []; days = []; audit = [] }

abbrev pub hotel : Hotel
hotel = record {
  books = books;
  rooms = room ∷ [];
  reservations = stay ∷ [];
  work_orders = [];
  configs = [];
}

abbrev pub encoder : LockDevice
encoder = record {
  id = codes "LDOOR-01";
  channel = tcp;
  endpoint = codes "127.0.0.1:9100";
  model = codes "SALTO-BRIDGE";
  online = false;
}

abbrev pub locks : Bridge
locks = record {
  devices = encoder ∷ [];
  tcp_adapter = some (codes "127.0.0.1:9100");
  serial_adapter = none;
  breakers = [];
  retry_loop = false;
  store = none;
  emitted = [];
  attempts = 0;
}

-- A main process after boot, with or without an address of the database.
abbrev pub main_with : Option Text → Main
main_with url = record {
  engine = record { actions = []; token = none; online = false; changed = []; passes = 0 };
  locks = locks;
  ledger = [];
  hotel = hotel;
  db = record { hotelia_db_url = none; database_url = url; client = false; load_error = none };
  settings = record {
    server_url = codes "http://127.0.0.1:3110";
    server_port = 3110;
    server_token = codes "token";
    property_id = some (codes "p7");
    currency = none;
  };
  calls = 0;
}

abbrev pub main : Main
main = main_with (some (codes "postgres://db"))

pub main-IsWell : IsWell main
main-IsWell = record {
  actions = record { ids = tt; keys = tt; retries = tt };
  ledger = record { ids = tt; keys = tt; receipts = tt };
  books = tt;
}

-- Every amount reads as 25.00.
abbrev pub parse_float : Text → Option ℤ
parse_float t = some (pos 250000)
