-- ===== src/Lib.antt =====
-- Verification of the controller of the Echo voice satellite: the state machines and codecs that decide
-- what a room's device hears, answers and rings (controller/*.py).
--
-- The parts and their files:
--   Prelude        tests, lists, Python's dict and int, and results; no code of its own
--   Stop           controller/em_stop.py: StopState.arm, disarm, detected, expire
--   AudioFrame     controller/em_audio_frame.py: encode_frame, decode_frame, Sequence
--   TurnEngine     controller/em_turn_engine.py: Turn (TurnEngine/Turn), turn_action (TurnEngine/Action),
--                  the registry of turns with its sockets, cancel, stop and barge (TurnEngine/Registry),
--                  the microphone task _send_mic (TurnEngine/Mic), the life of a turn
--                  from trigger_voice_turn to its outcome (TurnEngine/Run), and the upsampling of speech
--                  (TurnEngine/Upsampler)
--   Timers         controller/em_timers.py: AlarmSession
--   LinkAuth       controller/em_linkauth.py: decide
--   RunBarrier     controller/em_runbarrier.py: RunBarrier
--   Arbiter        controller/em_arbiter.py: WakeArbiter
--                  controller/em_controller.py: _wake_request_admission_gate, _handle_wake_request and
--                  handle_control's wake_request (Arbiter/Admission); the button's turn, the requests in
--                  _run_voice_locked and _clear_wake_task (Arbiter/Voice)
--   Button         controller/em_button.py: decide; controller/em_tap_burst.py: TapCoalescer (Button/Burst)
--   TurnClock      controller/em_turnclock.py: no_speech_verdict
--   Alarms         controller/em_alarms.py (the times, Alarms/NextFire); controller/em_alarm_scheduler.py:
--                  _reconcile_alarm (Alarms/Scheduler)
--   Config         controller/em_config_sections.py
--   Announce       controller/em_announce.py: run, play_media
--   Player         controller/em_player.py: MediaSession and the calls of the module; what a turn leaves of
--                  the music (Player/Turns), what Home Assistant is told (Player/Told), the pacing of a
--                  feed (Player/Pacing)
--   Integration    hacs/custom_components/echo_voice_satellite/client.py: AudioChannel; tts_stream.py:
--                  stream_result_to_audio (Integration/Speech); the way of the audio between the two
--                  programs (Integration/Voice). audio_frame.py is there a copy of em_audio_frame.py
--   Sendspin       controller/em_sendspin.py: SendspinDeviceSession; SendspinRuntime._connection_loop
--                  (Sendspin/Connection)
--   Capture        controller/em_capture_upload.py: Receiver; validate_metadata (Capture/Metadata)
--   DataLink       controller/em_controller.py: the messages of handle_data, _accept_capture_upload
--   Ingress        controller/em_ingressauth.py: decide, role_for; controller/em_hostip.py: resolve, server_ip
--   Clock          controller/em_clock.py: ClockSync, up to the fit of the line
--   TimerAlarm     controller/em_timer_alarm.py: TimerAlarmRunner._run
--   Satellite      hacs/custom_components/echo_voice_satellite/assist_satellite.py: _handle_wake_offer,
--                  _async_gateway_event, _async_pipeline_event and the partial texts
--   Accounts       controller/em_auth.py, the users and sessions of controller/em_db.py and the requests of
--                  controller/em_api.py that change them: the tables (Accounts/Store), the logins
--                  (Accounts/Login), who a request comes from (Accounts/Access), the handlers (Accounts/Api)
--   Training       controller/em_training_captures.py: the files (Training/Files), what is saved, pruned and
--                  removed (Training/Store), the labels (Training/Label)
--
-- How they interact: a turn's audio socket carries the frames of AudioFrame, whose sequence each side
-- checks; `_arm_stop` arms the StopState of the turn's device; the registry finds the turn that a call of
-- the integration or of the device is about. The microphone's queue that DataLink fills is the one that
-- TurnEngine/Mic empties; what it sends Integration receives, and the frames of Integration/Speech go the
-- other way, into the turn's playback queue. DataLink hands captures to Capture; Accounts takes the identity
-- of Ingress, and its role for a new account. The admission of a wake claims the utterance from Arbiter and
-- asks the registry for a barge, whose answer is an input there, as the end of each turn is. TimerAlarm rings
-- the line of Timers and takes the music of Player, as a turn does.
--
-- How the model stands to the code: a Python object is a record, and a method returns the new record with
-- what it answers and sends; an exception is an error value; a dict is an association list in insertion
-- order. Times are whole clock ticks (microseconds where a constant of the code is used), so arithmetic on
-- them is exact, where the code has floats; datetime and zoneinfo are a parameter of Alarms. Every
-- handler runs as one step: what another coroutine does between two awaits of a handler is a call before or
-- after it; a task (TurnEngine/Mic) is a machine of small steps, and the handlers of Satellite are cut at their
-- awaits. Of the database, the users, the sessions and three settings are the tables of Accounts;
-- the row of an alarm is a record of Alarms. Messages that cannot be sent and logging are not modelled.
--
-- Bounds and fuel: the loop over the pending bytes of the speech (Integration/Speech) runs on a unit of fuel
-- for each byte, which is enough since each round takes a byte at least; the limit of 43,200,000 bytes keeps
-- its frames within the sequence of 32 bits. The search for a free name of an account has a unit for each
-- user and one more, and that for a free name of a capture runs past the latest time of a file: both are
-- shown to find one. The other loops are recursion on what they read.
--
-- Not modelled: the dashboard's and the integration's endpoints (em_api.py), the other messages of a device's
-- control connection, its lights and its shell (em_controller.py), the other tables of the
-- database, certificates, the export of captures, the filters of sound and the fit of the clock, which are
-- arithmetic on floats, the decoder of the player, the SDK of Sendspin and its listener, Home Assistant's
-- other entities and the cards, and the firmware. ffmpeg, bcrypt, secrets, JSON, MD5, regular expressions,
-- the encoders of em_music_sync (a module that the repository does not have) and Python's operations on
-- texts are inputs or parameters.
mod Prelude
pub mod Stop
pub mod AudioFrame
pub mod TurnEngine
pub mod Timers
pub mod LinkAuth
pub mod Arbiter
pub mod RunBarrier
pub mod Button
pub mod TurnClock
pub mod Alarms
pub mod Config
pub mod Announce
pub mod Player
pub mod Integration
pub mod Sendspin
pub mod Capture
pub mod DataLink
pub mod Ingress
pub mod Clock
pub mod TimerAlarm
pub mod Satellite
pub mod Accounts
pub mod Training
