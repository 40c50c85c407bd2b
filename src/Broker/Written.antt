-- ===== src/Broker/Written.antt =====
-- What the broker writes to a stream (apps/console/src/main/server.ts).
use hotelia.Prelude.{Text, codes, List, [], ◌∷◌, ◌++◌}

-- The data of an event is what `JSON.stringify` gives.
pub data Written : Type 0 where
  connected ping : Written
  event : Text → Text → Written

-- What is written, without the two line ends behind it.
unfoldable pub body_of : Written → Text
body_of connected = codes ": connected"
body_of ping = codes ": ping"
body_of (event t d) = codes "event: " ++ (t ++ 10 ∷ (codes "data: " ++ d))

unfoldable pub text_of : List Written → Text
unfolding body_of
text_of [] = []
text_of (w ∷ ws) = body_of w ++ 10 ∷ 10 ∷ text_of ws
