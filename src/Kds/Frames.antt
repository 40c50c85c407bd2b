-- ===== src/Kds/Frames.antt =====
-- How the kitchen display reads the stream (apps/kds/app/page.tsx): frames out of chunks, and the
-- event and the data of a frame.
use hotelia.Prelude.{
  ℕ, zero, suc, Text, codes, List, [], ◌∷◌, ◌++◌, Option, none, some, ◌&&◌, ◌==◌, if◌then◌else◌,
  starts_with, split_on, or_else,
}
use hotelia.Prelude.Table.{find}

abbrev pub push_char : ℕ → List Text × Text → List Text × Text
push_char c ([], s) = ([], c ∷ s)
push_char c (f ∷ fs, s) = ((c ∷ f) ∷ fs, s)

abbrev pub begin_frame : List Text × Text → List Text × Text
begin_frame (fs, s) = ([] ∷ fs, s)

-- `buffer.split('\n\n')`: the parts but the last, and the last, which is popped.
unfoldable pub frames_of : Text → List Text × Text
frames_of [] = ([], [])
frames_of (a ∷ []) = ([], a ∷ [])
frames_of (a ∷ b ∷ s) =
    let after = frames_of s in
    let rest = frames_of (b ∷ s) in
    if a == 10 && b == 10 then begin_frame after else push_char a rest

-- One chunk: the frames that are complete now, and the buffer afterwards.
unfoldable pub consume : Text → Text → List Text × Text
unfolding frames_of
consume buffer chunk = frames_of (buffer ++ chunk)

-- The chunks of a stream: all frames in order, and the buffer at the end.
unfoldable pub consume_all : Text → List Text → List Text × Text
unfolding consume
consume_all buffer [] = ([], buffer)
consume_all buffer (c ∷ cs) =
    let (fs, s) = consume buffer c in let (gs, t) = consume_all s cs in (fs ++ gs, t)

-- `slice(n)`
unfoldable pub slice : ℕ → Text → Text
slice zero s = s
slice (suc n) [] = []
slice (suc n) (c ∷ s) = slice n s

abbrev sliced : ℕ → Option Text → Option Text
sliced n none = none
sliced n (some l) = some (slice n l)

-- The event of a frame's lines, the empty text if there is none.
unfoldable pub event_of : List Text → Text
unfolding starts_with slice
event_of lines = or_else (sliced 7 (find (starts_with (codes "event: ")) lines)) []

abbrev not_empty : Option Text → Option Text
not_empty none = none
not_empty (some []) = none
not_empty (some (c ∷ s)) = some (c ∷ s)

-- The data of a frame's lines, if there are some that are not empty.
unfoldable pub data_of : List Text → Option Text
unfolding starts_with slice
data_of lines = not_empty (sliced 6 (find (starts_with (codes "data: ")) lines))

abbrev with_data : Text → Option Text → List (Text × Text)
with_data event none = []
with_data event (some d) = (event, d) ∷ []

-- What the lines of a frame give to `handleFrame`, if the frame is not skipped.
unfoldable pub read_lines : List Text → List (Text × Text)
unfolding event_of data_of
read_lines lines = with_data (event_of lines) (data_of lines)

unfoldable pub read_frame : Text → List (Text × Text)
unfolding read_lines split_on
read_frame frame = read_lines (split_on 10 frame)

unfoldable pub read_frames : List Text → List (Text × Text)
unfolding read_frame
read_frames [] = []
read_frames (f ∷ fs) = read_frame f ++ read_frames fs
