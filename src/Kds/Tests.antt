-- ===== src/Kds/Tests.antt =====
-- Runs of the kitchen display, and the theorems about it at concrete frames.
use hotelia.Prelude.{
  ℕ, ◌≡◌, refl, Text, codes, List, [], ◌∷◌, ◌++◌, none, some, true, false, arith, same_text, trim,
  split_on,
}
use hotelia.Events.Registry.{includes, is_valid}
use hotelia.Broker.Stream.{text, connected, filter_invalid, requested, unknown, open_stream}
use hotelia.Broker.Written.{Written, ping, event, body_of, text_of}
use hotelia.Kds.Queue.{OrderCard, Reader, preparing, move, remove_order, upsert, handle_frame}
use hotelia.Kds.Columns.{
  column_of, column_in, handle_frames, next_columns, handle_frames-next_columns,
}
use hotelia.Kds.Frames.{frames_of, consume_all, read_frames}
use hotelia.Kds.Feed.{concat}
use hotelia.Kds.Wire.{events_of, read_frames-text_of}
use hotelia.Kds.Subscription.{subscribed, join}

-- A reader for data that are the identifier alone.
abbrev reader : Reader
reader = record {
  order = λ d. some (record { order_id = d; room_number = none; items = []; total = 0 });
  order_id = λ d. some (some d);
}

abbrev evening : List (ℕ × Text × Text)
evening =
    (1, codes "order.placed", codes "o1")
    ∷ (2, codes "order.placed", codes "o2")
    ∷ (3, codes "order.placed", codes "o1")
    ∷ (4, codes "order.preparing", codes "o1")
    ∷ (5, codes "order.completed", codes "o2")
    ∷ []

abbrev left_card : OrderCard
left_card = record {
  order_id = codes "o1";
  created_at = 3;
  room_number = none;
  items = [];
  total = 0;
  column = preparing;
}

evening_run : handle_frames reader evening [] ≡ some (left_card ∷ [])
unfolding handle_frames handle_frame upsert move remove_order same_text
evening_run = refl

handle_frames-next_columns_example :
    column_in (codes "o1") (handle_frames reader evening [])
    ≡ next_columns reader (codes "o1") evening (column_of (codes "o1") [])
handle_frames-next_columns_example = handle_frames-next_columns reader (codes "o1") evening []

-- A frame that is cut between its line ends.
abbrev cut : List Text
cut = (codes "a" ++ 10 ∷ []) ∷ (10 ∷ codes "b") ∷ []

no_frame : frames_of [] ≡ ([], [])
unfolding frames_of
no_frame = refl

abbrev sent : List Written
sent = ping ∷ event (codes "order.ready") (codes "1") ∷ []

abbrev chunks : List Text
chunks =
    codes ": pin"
    ∷ (codes "g" ++ 10 ∷ 10 ∷ codes "event: order.ready" ++ 10 ∷ [])
    ∷ (codes "data: 1" ++ 10 ∷ [])
    ∷ (10 ∷ [])
    ∷ []

sent_in_chunks : concat chunks ≡ text_of sent
unfolding text_of body_of
sent_in_chunks = refl

read_frames-text_of_example : read_frames (consume_all [] chunks).0 ≡ events_of sent
read_frames-text_of_example =
    read_frames-text_of sent chunks
      (tt, ((ground arith, ground arith, (λ e. ground (arith, e))), tt)) sent_in_chunks

-- The stream that the display asks for is refused, since the registry has no `order.cancelled`.
asks_for_cancelled : includes (codes "order.cancelled") (requested (text (join subscribed))) ≡ true
unfolding requested split_on trim includes same_text
asks_for_cancelled = refl

cancelled_is_unknown : is_valid (codes "order.cancelled") ≡ false
unfolding is_valid
cancelled_is_unknown = refl

display_is_refused :
    open_stream 5 (text (join subscribed)) []
    ≡ (connected ∷ filter_invalid (unknown (requested (text (join subscribed)))) ∷ [], false, [])
unfolding same_text is_valid open_stream
display_is_refused = refl
