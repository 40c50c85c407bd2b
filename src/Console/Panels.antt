-- ===== src/Console/Panels.antt =====
-- The other two views with a handler: the tasks of `Housekeeping`
-- (apps/console/src/renderer/views/Housekeeping.tsx) and the encoders of `Settings`
-- (apps/console/src/renderer/views/Settings.tsx). The shared store is part of their state.
use hotelia.Prelude.{
  ℕ, ◌≡◌, refl, Text, codes, List, [], ◌∷◌, ◌++◌, Option, none, some, Bool, false,
}
use hotelia.Hardware.Bridge.{LockDevice}
use hotelia.Pms.Board.{HousekeepingTask}
use hotelia.Ipc.Wrap.{unwrap}
use hotelia.Console.Bridge.{Invoked, ConsoleBridge}
use hotelia.Console.Store.{AppStore, set_state, set_tasks}
use hotelia.Console.View.{Awaited, rejected, resolved, awaited}

pub record Housekeeping : Type 0 where
  pub tasks : List HousekeepingTask
  pub loading : Bool
  pub store : AppStore

-- The end of `refresh`: a list that cannot be loaded is shown as an empty one, and the shared store
-- keeps the tasks that it has.
abbrev show_tasks : Awaited (List HousekeepingTask) → Housekeeping → Housekeeping
unfolding set_state
show_tasks (rejected e) v = record v { tasks = []; loading = false }
show_tasks (resolved ts) v = record {
  tasks = ts;
  loading = false;
  store = set_tasks (some ts) v.store;
}

abbrev load_tasks :
    {S : Type 0} → Invoked S (List HousekeepingTask) → Housekeeping → S → Housekeeping × S
unfolding show_tasks
load_tasks call v s = (show_tasks (awaited (unwrap (call s).0)) v, (call s).1)

-- `refresh` of `Housekeeping`, for the property of the configuration
unfoldable pub refresh_tasks :
    {S : Type 0} → Option (ConsoleBridge S) → Option Text → Housekeeping → S → Housekeeping × S
unfolding load_tasks
refresh_tasks (some b) (some (c ∷ p)) v s = load_tasks (b.tasks (c ∷ p)) v s
refresh_tasks _ _ v s = (v, s)

pub record SettingsView : Type 0 where
  pub locks : List LockDevice
  pub endpoint : Text
  pub link_msg : Text

abbrev show_locks : Awaited (List LockDevice) → SettingsView → SettingsView
show_locks (rejected e) v = v
show_locks (resolved l) v = record v { locks = l }

-- The effect that lists the encoders
unfoldable pub mount_settings :
    {S : Type 0} → Option (ConsoleBridge S) → SettingsView → S → SettingsView × S
mount_settings none v s = (v, s)
mount_settings (some b) v s = (show_locks (awaited (unwrap (b.locks s).0)) v, (b.locks s).1)

-- The answer is an object, whose text is that of any object.
abbrev link_message : Awaited (Option Text) → Text
link_message (rejected e) = e
link_message (resolved r) = codes "Linked TCP encoder at " ++ codes "[object Object]"

-- `link`
unfoldable pub link : {S : Type 0} → Option (ConsoleBridge S) → SettingsView → S → SettingsView × S
link none v s = (v, s)
link (some b) v s =
    let (r, s') = b.link (some v.endpoint) s in
    (record v { link_msg = link_message (awaited (unwrap r)) }, s')

-- Two endpoints that are both linked give the same message.
linked_alike :
    {S : Type 0} (b : ConsoleBridge S) (v u : SettingsView) (s t : S) (x y : Option Text)
    → awaited (unwrap (b.link (some v.endpoint) s).0) ≡ resolved x
    → awaited (unwrap (b.link (some u.endpoint) t).0) ≡ resolved y
    → (link (some b) v s).0.link_msg ≡ (link (some b) u t).0.link_msg
unfolding link
linked_alike b v u s t x y e f = rw (e, f) refl

-- After a refresh of the tasks nothing is loading, if there are a bridge and a property.
refresh_tasks-loaded :
    {S : Type 0} (b : ConsoleBridge S) (c : ℕ) (p : Text) (v : Housekeeping) (s : S)
    → (refresh_tasks (some b) (some (c ∷ p)) v s).0.loading ≡ false
unfolding refresh_tasks
refresh_tasks-loaded b c p v s = by_answer (awaited (unwrap (b.tasks (c ∷ p) s).0))
  where
    by_answer : (o : Awaited (List HousekeepingTask)) → (show_tasks o v).loading ≡ false
    by_answer (rejected e) = refl
    by_answer (resolved l) = refl
