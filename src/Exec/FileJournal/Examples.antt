-- ===== src/Exec/FileJournal/Examples.antt =====
-- Runs of the journal file (exec/src/file_journal.cpp) on two events.
use openvehicleframework.Base.{
  true, false, none, [], ◌∷◌, map, arith, ◌≡◌, refl, ok, fail, persistence_error,
}
use openvehicleframework.Exec.Types.{TransitionPhase}
use openvehicleframework.Exec.FileJournal.{Event}
use openvehicleframework.Exec.FileJournal.Events.{put_event}
use openvehicleframework.Exec.FileJournal.Events.RoundTrip.{stored}
use openvehicleframework.Exec.FileJournal.Frames.{Outcome, crc32, frame, append, replay}
use openvehicleframework.Exec.FileJournal.Frames.Reading.{length-frame}
use openvehicleframework.Exec.FileJournal.Replay.{journal, replay-append}

-- The check value of the checksum, for the digits from one to nine.
crc32_test : crc32 (49 ∷ 50 ∷ 51 ∷ 52 ∷ 53 ∷ 54 ∷ 55 ∷ 56 ∷ 57 ∷ []) ≡ 3421780262
unfolding crc32 openvehicleframework.Exec.FileJournal.Frames.crc_bytes
    openvehicleframework.Exec.FileJournal.Frames.crc_bits
    openvehicleframework.Exec.FileJournal.Frames.crc_bit
crc32_test = refl

abbrev received : Event
received = record {
  generation = 1;
  id = 7;
  domain = 2;
  source_mode = 3;
  target_mode = 4;
  phase = TransitionPhase.received;
  updated_at = 1000;
  failure = none;
  plan = none;
}

abbrev rejected : Event
rejected = record received { phase = TransitionPhase.rejected }

replay-append_example :
    (append 4096 true rejected (Outcome.written true) (journal (received ∷ []))
      ≡ (ok tt, journal (received ∷ rejected ∷ [])))
    × (replay 4096 true false (journal (received ∷ rejected ∷ []))
        ≡ (ok (map stored (received ∷ rejected ∷ [])), journal (received ∷ rejected ∷ [])))
    × ((append 4096 true rejected (Outcome.torn_after 20) (journal (received ∷ []))).0
        ≡ fail persistence_error)
    × (replay 4096 true false
          (append 4096 true rejected (Outcome.torn_after 20) (journal (received ∷ []))).1
        ≡ (ok (map stored (received ∷ [])), journal (received ∷ [])))
unfolding put_event openvehicleframework.Exec.FileJournal.Codec.put_integer
    openvehicleframework.Exec.FileJournal.Events.put_option
replay-append_example =
    replay-append 4096 20 true (received ∷ []) rejected refl refl (omega arith)
      (omega (arith, length-frame (put_event rejected)))

-- A frame behind a torn one: the journal cannot be read.
behind_torn_test :
    (replay 4096 true false
      (append 4096 true rejected
        (Outcome.written true)
        (append 4096 true rejected (Outcome.torn_after 20) (journal (received ∷ []))).1).1).0
    ≡ fail persistence_error
unfolding replay openvehicleframework.Exec.FileJournal.Frames.replay_from
    openvehicleframework.Exec.FileJournal.Frames.read_frame append
    openvehicleframework.Exec.FileJournal.Events.encode put_event
    openvehicleframework.Exec.FileJournal.Codec.put_integer
    openvehicleframework.Exec.FileJournal.Events.put_option journal frame
    openvehicleframework.Exec.FileJournal.Frames.take_header
    openvehicleframework.Exec.FileJournal.Codec.goes_on
    openvehicleframework.Exec.FileJournal.Codec.take_integer
    openvehicleframework.Exec.FileJournal.Frames.read_rest
    openvehicleframework.Exec.FileJournal.Frames.is_bad_header
    openvehicleframework.Exec.FileJournal.Codec.take_bytes
    openvehicleframework.Exec.FileJournal.Frames.read_payload crc32
    openvehicleframework.Exec.FileJournal.Frames.crc_bytes
    openvehicleframework.Exec.FileJournal.Frames.crc_bits
    openvehicleframework.Exec.FileJournal.Frames.crc_bit
    openvehicleframework.Exec.FileJournal.Events.decode
    openvehicleframework.Exec.FileJournal.Events.take_event
    openvehicleframework.Exec.FileJournal.Codec.take_one
    openvehicleframework.Exec.FileJournal.Events.take_option
    openvehicleframework.Exec.FileJournal.Frames.first
behind_torn_test = refl
