-- ===== src/Simulator/Network.antt =====
-- simulator/network.go: how a session's frames are cut, joined, delayed and queued. A frame's raw writes
-- are its segments; the underlying connection answers each write by a schedule.
pub mod Transparent
use go_aioesphomeapi.Base.{
  ℕ, ◌+◌, ◌-◌, Bool, true, false, not, ◌||◌, Option, none, some, List, [], ◌∷◌, ◌++◌, ltb, ◌==◌,
  if◌then◌else◌, length, take, drop, Bytes, ℤ, is_not_positive, int_add, wrap64, pos,
}
use go_aioesphomeapi.Wire.Io.{IoError}

-- `NetworkAction`: in Go a text.
pub data NetworkAction : Type 0 where
  fragment_frame coalesce_segments delay_reply : NetworkAction
  other_network_action : Bytes → NetworkAction

-- What is armed for the next frame.
pub record Armed : Type 0 where
  pub fragment_next : Bool
  pub coalesce_next : Bool
  pub delay_next_target : ℤ

abbrev pub unarmed : Armed
unarmed = record { fragment_next = false; coalesce_next = false; delay_next_target = pos 0 }

-- `arm`, at the clock's time `now`.
unfoldable pub arm : ℤ → NetworkAction → ℤ → Armed → Armed
arm now action delay a = elim action [
  | fragment_frame ↦ record a { fragment_next = true }
  | coalesce_segments ↦ record a { coalesce_next = true }
  | delay_reply ↦ record a { delay_next_target = wrap64 (int_add now delay) }
  | other_network_action _ ↦ a
]

-- `networkFrame`. A frame that is not asynchronous has a `done` channel.
pub record NetworkFrame : Type 0 where
  pub segments : List Bytes
  pub fragment : Bool
  pub coalesce : Bool
  pub delay_target : ℤ
  pub asynchronous : Bool

-- The network counters of `Device`.
pub record NetworkStats : Type 0 where
  pub fragmented_frames : ℕ
  pub fragmented_segments : ℕ
  pub coalesced_frames : ℕ
  pub coalesced_segments : ℕ
  pub delayed_frames : ℕ
  pub pending_delayed_frames : ℕ

-- `networkConn`, with the counters and its channel of frames.
pub record NetworkConn : Type 0 where
  pub stopped : Bool
  pub armed : Armed
  pub frame_active : Bool
  pub fragment_active : Bool
  pub coalesce_active : Bool
  pub delay_active : ℤ
  pub segments : List Bytes
  pub async_frames : ℕ
  pub frames : List NetworkFrame
  pub stats : NetworkStats

abbrev is_delayed : ℤ → Bool
is_delayed target = not (is_not_positive target)

abbrev bump : Bool → ℕ → ℕ
bump true n = n + 1
bump false n = n

-- `beginFrame`, with the counters it bumps.
unfoldable pub begin_frame : NetworkConn → NetworkConn
begin_frame c = record c {
  frame_active = true;
  fragment_active = c.armed.fragment_next;
  coalesce_active = c.armed.coalesce_next;
  delay_active = c.armed.delay_next_target;
  armed = unarmed;
  segments = [];
  stats = record c.stats {
    fragmented_frames = bump c.armed.fragment_next c.stats.fragmented_frames;
    coalesced_frames = bump c.armed.coalesce_next c.stats.coalesced_frames;
    delayed_frames = bump (is_delayed c.armed.delay_next_target) c.stats.delayed_frames;
  };
}

pub data NetworkError : Type 0 where
  net_closed frame_queue_full : NetworkError
  framer_failed write_failed : IoError → NetworkError

-- `Write` while a frame is active: the payload is another segment.
unfoldable pub write_segment : Bytes → NetworkConn → NetworkConn × Option NetworkError
write_segment payload c =
    if c.stopped
    then (c, some net_closed)
    else (record c { segments = c.segments ++ (payload ∷ []) }, none)

abbrev pub network_frame_queue_size : ℕ
network_frame_queue_size = 64

-- `enqueue`
unfoldable pub enqueue_frame : NetworkFrame → NetworkConn → NetworkConn × Option NetworkError
enqueue_frame frame c =
    if c.stopped
    then (c, some net_closed)
    else if ltb (length c.frames) network_frame_queue_size
    then (record c { frames = c.frames ++ (frame ∷ []) }, none)
    else (c, some frame_queue_full)

-- `finishAsyncFrame`
unfoldable pub finish_async_frame : NetworkFrame → NetworkConn → NetworkConn
finish_async_frame frame c =
    if frame.asynchronous then record c { async_frames = c.async_frames - 1 } else c

-- `stop`: the underlying connection is closed once.
unfoldable pub stop_network : NetworkConn → NetworkConn
stop_network c = record c { stopped = true }

-- The frame that `endFrame` makes of what was collected.
unfoldable pub closed_frame : NetworkConn → NetworkFrame
closed_frame c = record {
  segments = c.segments;
  fragment = c.fragment_active;
  coalesce = c.coalesce_active;
  delay_target = c.delay_active;
  asynchronous = is_delayed c.delay_active || not (c.async_frames == 0);
}

-- The connection after that: nothing is active.
unfoldable pub settled : NetworkConn → NetworkConn
settled c = record c {
  async_frames = bump (is_delayed c.delay_active || not (c.async_frames == 0)) c.async_frames;
  frame_active = false;
  fragment_active = false;
  coalesce_active = false;
  delay_active = pos 0;
  segments = [];
}

-- How `endFrame` goes on: it returns, or waits for the writer to finish the frame.
pub data EndFrame : Type 0 where
  returns : Option NetworkError → EndFrame
  waits : EndFrame

-- `endFrame`, up to its wait.
unfoldable pub end_frame : Option IoError → NetworkConn → NetworkConn × EndFrame
end_frame frame_err c =
    let frame = closed_frame c in
    let c1 = settled c in
    let c2 =
      if frame.coalesce
      then record c1 {
        stats = record c1.stats {
          coalesced_segments = c1.stats.coalesced_segments + length frame.segments;
        };
      }
      else c1 in
    let (c3, refusal) = enqueue_frame frame c2 in
    elim frame_err [
      | some e ↦ (finish_async_frame frame c1, returns (some (framer_failed e)))
      | none ↦ elim refusal [
        | some frame_queue_full ↦
            (stop_network (finish_async_frame frame c3), returns (some frame_queue_full))
        | some e ↦ (finish_async_frame frame c3, returns (some e))
        | none ↦ (c3, (if frame.asynchronous then returns none else waits))
      ]
    ]

-- What a write to the underlying connection does: it takes `n` bytes, or it takes `n` bytes, maybe none,
-- and fails; `gone` is the test of `closed` before it.
pub data NetworkOutcome : Type 0 where
  wrote : ℕ → NetworkOutcome
  failed : (written : ℕ) → IoError → NetworkOutcome
  gone : NetworkOutcome

-- `waiting` is no Go value: the schedule has no answer to the next write.
pub data WriteEnd : Type 0 where
  complete : WriteEnd
  aborted : NetworkError → WriteEnd
  waiting : WriteEnd

-- What went out, how it ended, and the rest of the schedule.
pub record Progress : Type 0 where
  pub out : Bytes
  pub end : WriteEnd
  pub left : List NetworkOutcome

-- `writeAll`
unfoldable pub write_all : List NetworkOutcome → Bytes → Progress
write_all ws [] = record { out = []; end = complete; left = ws }
write_all [] (b ∷ bs) = record { out = []; end = waiting; left = [] }
write_all (gone ∷ ws) (b ∷ bs) = record { out = []; end = aborted net_closed; left = ws }
write_all (failed n e ∷ ws) (b ∷ bs) = record {
  out = take n (b ∷ bs);
  end = aborted (write_failed e);
  left = ws;
}
write_all (wrote n ∷ ws) (b ∷ bs) =
    let rest = write_all ws (drop n (b ∷ bs)) in
    if n == 0
    then record { out = []; end = aborted net_closed; left = ws }
    else record rest { out = take n (b ∷ bs) ++ rest.out }

-- The writes of a frame, one after the other, to the first that fails.
unfoldable pub write_chunks : List NetworkOutcome → List Bytes → Progress
write_chunks ws [] = record { out = []; end = complete; left = ws }
write_chunks ws (chunk ∷ chunks) =
    let one = write_all ws chunk in
    let rest = write_chunks one.left chunks in
    elim one.end [ complete ↦ record rest { out = one.out ++ rest.out } | _ ↦ one ]

unfoldable pub concat : List Bytes → Bytes
concat [] = []
concat (x ∷ xs) = x ++ concat xs

-- Each byte by itself.
unfoldable pub singles : Bytes → List Bytes
singles [] = []
singles (b ∷ bs) = (b ∷ []) ∷ singles bs

-- The writes that `writeFrame` makes of a frame.
unfoldable pub chunks_of : NetworkFrame → List Bytes
chunks_of frame =
    if frame.coalesce
    then concat frame.segments ∷ []
    else if frame.fragment
    then singles (concat frame.segments)
    else frame.segments

-- `writeFrame`, after its wait for the clock.
unfoldable pub write_network_frame : List NetworkOutcome → NetworkFrame → Progress
write_network_frame ws frame = write_chunks ws (chunks_of frame)
