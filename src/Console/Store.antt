-- ===== src/Console/Store.antt =====
-- The state that the views share (apps/console/src/renderer/app-store.ts), how the shell fills it
-- (apps/console/src/renderer/App.tsx) and the keys that switch views
-- (apps/console/src/renderer/use-shortcuts.ts). A listener is a number, since listeners are only
-- compared; what they were called with is kept, latest first. `parse_int` stands for `parseInt`.
use hotelia.Prelude.{
  ℕ, ◌-◌, Text, codes, List, [], ◌∷◌, ◌++◌, Option, none, some, Bool, true, false, ◌&&◌, ◌||◌, not,
  leb, ◌==◌, if◌then◌else◌, same_text, get_elem?,
}
use hotelia.Offline.Sync.{SyncStatus}
use hotelia.Pms.Board.{FrontDeskBoard, HousekeepingTask}
use hotelia.Console.Main.{Conf}
use hotelia.Console.Bridge.{ConsoleBridge}
use hotelia.Console.View.{Awaited, rejected, resolved, awaited}
use hotelia.Ipc.Wrap.{unwrap}

pub data ViewKey : Type 0 where
  frontdesk housekeeping pos messaging workorders revenue reconciliation settings : ViewKey

unfoldable pub view_name : ViewKey → Text
view_name frontdesk = codes "frontdesk"
view_name housekeeping = codes "housekeeping"
view_name pos = codes "pos"
view_name messaging = codes "messaging"
view_name workorders = codes "workorders"
view_name revenue = codes "revenue"
view_name reconciliation = codes "reconciliation"
view_name settings = codes "settings"

abbrev pub same_view : ViewKey → ViewKey → Bool
unfolding view_name same_text
same_view a b = same_text (view_name a) (view_name b)

pub record ConsoleConfig : Type 0 where
  pub property_id : Option Text
  pub db_available : Bool
  pub server_url : Text
  pub server_token : Text
  pub currency : Text

pub record AppState : Type 0 where
  pub view : ViewKey
  pub config : Option ConsoleConfig
  pub status : Option SyncStatus
  pub board : Option FrontDeskBoard
  pub tasks : Option (List HousekeepingTask)

pub record AppStore : Type 0 where
  pub state : AppState
  pub listeners : List ℕ
  pub notified : List (ℕ × AppState)

abbrev pub initial_store : AppStore
initial_store = record {
  state = record { view = frontdesk; config = none; status = none; board = none; tasks = none };
  listeners = [];
  notified = [];
}

abbrev holds : ℕ → List ℕ → Bool
holds l [] = false
holds l (k ∷ ks) = k == l || holds l ks

without : ℕ → List ℕ → List ℕ
without l [] = []
without l (k ∷ ks) = if k == l then without l ks else k ∷ without l ks

-- `subscribeAppStore`: a set takes a listener once.
unfoldable pub subscribe : ℕ → AppStore → AppStore
subscribe l s = if holds l s.listeners then s else record s { listeners = s.listeners ++ l ∷ [] }

-- What `subscribeAppStore` returns.
unfoldable pub unsubscribe : ℕ → AppStore → AppStore
unfolding without
unsubscribe l s = record s { listeners = without l s.listeners }

notify : AppState → List ℕ → List (ℕ × AppState) → List (ℕ × AppState)
notify a [] log = log
notify a (l ∷ ls) log = notify a ls ((l, a) ∷ log)

-- `setState`
unfoldable pub set_state : (AppState → AppState) → AppStore → AppStore
unfolding notify
set_state patch s = record s {
  state = patch s.state;
  notified = notify (patch s.state) s.listeners s.notified;
}

-- The methods of `appStore`
unfoldable pub navigate : ViewKey → AppStore → AppStore
unfolding set_state same_view
navigate v s = if same_view v s.state.view then s else set_state (λ a. record a { view = v }) s

abbrev pub set_config : Option ConsoleConfig → AppStore → AppStore
unfolding set_state
set_config c = set_state (λ a. record a { config = c })

abbrev pub set_status : Option SyncStatus → AppStore → AppStore
unfolding set_state
set_status x = set_state (λ a. record a { status = x })

abbrev pub set_board : Option FrontDeskBoard → AppStore → AppStore
unfolding set_state
set_board b = set_state (λ a. record a { board = b })

abbrev pub set_tasks : Option (List HousekeepingTask) → AppStore → AppStore
unfolding set_state
set_tasks t = set_state (λ a. record a { tasks = t })

-- The configuration that the shell makes of the answer of `conf:get`.
abbrev pub config_of : Conf → ConsoleConfig
config_of c = record {
  property_id = c.property_id;
  db_available = c.db_available;
  server_url = c.server_url;
  server_token = c.server_token;
  currency = c.currency;
}

abbrev take_config : Awaited Conf → AppStore → AppStore
unfolding set_state
take_config (rejected e) s = s
take_config (resolved c) s = set_config (some (config_of c)) s

abbrev status_shown : Awaited SyncStatus → Option SyncStatus
status_shown (rejected e) = none
status_shown (resolved x) = some x

-- The first effect of the shell: a snapshot of the queue, then the configuration.
unfoldable pub mount : {S : Type 0} → Option (ConsoleBridge S) → AppStore → S → AppStore × S
unfolding set_state
mount none a s = (set_status none a, s)
mount (some b) a s =
    let (r, s1) = b.status s in
    let (c, s2) = b.conf s1 in
    (take_config (awaited (unwrap c)) (set_status (status_shown (awaited (unwrap r))) a), s2)

pub record KeyPress : Type 0 where
  pub key : Text
  pub ctrl_key : Bool
  pub meta_key : Bool
  pub alt_key : Bool
  pub is_composing : Bool
  pub tag_name : Text

-- `VIEW_KEYS[n]`
abbrev pub view_at : ℕ → Option ViewKey
view_at n =
    get_elem?
      (frontdesk ∷ housekeeping ∷ pos ∷ messaging ∷ workorders ∷ revenue ∷ reconciliation ∷ []) n

abbrev in_form : KeyPress → Bool
unfolding same_text
in_form e =
    e.is_composing
    || same_text e.tag_name (codes "INPUT")
    || same_text e.tag_name (codes "TEXTAREA")

abbrev is_digit_of_view : KeyPress → ℕ → Bool
is_digit_of_view e n = leb 1 n && leb n 7 && not e.ctrl_key && not e.meta_key && not e.alt_key

abbrev go_to : Option ViewKey → AppStore → AppStore
unfolding navigate
go_to none s = s
go_to (some v) s = navigate v s

-- The handler of `useShortcuts`: whether the palette is toggled, and the store after it.
unfoldable pub on_key : (Text → Option ℕ) → KeyPress → AppStore → Bool × AppStore
unfolding navigate
on_key parse_int e s =
    if in_form e
    then (false, s)
    else if (e.meta_key || e.ctrl_key) && same_text e.key (codes "k")
    then (true, s)
    else elim (parse_int e.key) [
      | none ↦ (false, s)
      | some n ↦ if is_digit_of_view e n then (false, go_to (view_at (n - 1)) s) else (false, s)
    ]
