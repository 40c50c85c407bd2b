-- ===== src/Console/History.antt =====
-- Histories of the main process (apps/console/src/main/index.ts): calls of the bridge, and between
-- them statements of the flusher and of the lock drain on the queue.
use hotelia.Offline.Store.{Actions}
use hotelia.Offline.Store.Reach.{Step, Step-IsSound}
use hotelia.Console.Main.{World, Main, Call, handle}
use hotelia.Console.Sound.{IsWell, FreshFolio, handle-IsWell}

-- One event of the main process. The flusher and the drain work while calls come in, so each of
-- their statements is an event of its own.
pub data Event (w : World) (m : Main) : Main → Type 0 where
  calls : (c : Call) → FreshFolio w m → Event w m (handle w c m).1
  queues :
      {t : Actions}
      → Step m.engine.actions t
      → Event w m (record m { engine = record m.engine { actions = t } })

pub data History (w : World) (m : Main) : Main → Type 0 where
  here : History w m m
  next : {n o : Main} → History w m n → Event w n o → History w m o

Event-IsWell : {w : World} {m n : Main} → Event w m n → IsWell m → IsWell n
Event-IsWell {w} {m} (calls c f) g = handle-IsWell w m f g c
Event-IsWell (queues s) g = record {
  actions = Step-IsSound s g.actions;
  ledger = g.ledger;
  books = g.books;
}

-- Whatever calls the renderer makes, valid or not, and whatever the flusher and the lock drain do in
-- between, in any order: the identifiers and keys of the queue stay unique with at most eight
-- retries, the identifiers, keys and receipts of the payment ledger stay unique, and every folio
-- balance stays what its items and transfers come to, if charges get fresh identifiers for folios.
pub History-IsWell : {w : World} {m n : Main} → History w m n → IsWell m → IsWell n
History-IsWell here g = g
History-IsWell (next h e) g = Event-IsWell e (History-IsWell h g)
