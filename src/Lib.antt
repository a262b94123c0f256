-- ===== src/Lib.antt =====
-- A model of the engine of the session border controller (engine/src), a back-to-back user agent
-- for SIP calls with a registrar, a routing table, a media relay and a websocket to its control
-- plane.
--
-- The parts, and how they interact:
-- Base: shared names, the Boolean tests, lists, association lists and integers (ℤ) over the native
-- numbers, positions in texts.
-- Protocols: the stored data and the codecs of engine/src/protocols.
-- Sm: the three state machines of engine/src/sip/sm. Sm.Machine is process_event of sm_runner.cpp
-- over a table, with the process queue that Boost.SML documents; Sm.Setup, Sm.Dialog and
-- Sm.OfferAnswer are the transition tables, a clause to a row, over a record of actions that stands
-- for the interfaces i_setup_actions.hpp, i_dialog_actions.hpp and i_offer_answer_actions.hpp. A
-- theorem about a machine holds for every implementation of its actions. Their Trace modules
-- record the calls beside the implementation's own state.
-- Sdp: engine/src/sip/stack/sdp.cpp over the parsed structures of PJMEDIA: Sdp.Validity is
-- is_valid_sdp, Sdp.Direction the media direction, Sdp.Codecs the audio codecs and their narrowing.
-- Call: engine/src/sip/call. Call.Exchange is offer_answer_exchange.cpp, which drives the offer/answer
-- machine; Call.Session is the bookkeeping of call_session.cpp, which posts media flows to the
-- bridge and reports the call's history; Call.Invite is stack/inv_session.cpp, the replies on an
-- invite session; Call.Legs is a call with its two sessions. The actions classes fill the machines'
-- interfaces: Call.Answering (with Call.Outbound, the INVITE towards the callee) is
-- offer_answer_actions.cpp, Call.SetupCall is setup_actions.cpp, Call.DialogCall is
-- dialog_actions.cpp with the re-INVITE, UPDATE and BYE handlers of call/handlers, over Call.MidDialog,
-- which is mid_dialog_offer.cpp. Their Callbacks modules are what a callback of PJSIP does.
-- Call.Manager is call_manager.cpp, over the interface `CallOps` of a call; Call.InactivityTimer is
-- engine/src/net/rtp/rtp_inactivity_timer.cpp.
-- Router: engine/src/sip/router. Router.Requests is what a request outside of a dialog starts,
-- Router.Dispatch a turn of PJSIP's loop, Router.Callbacks a re-INVITE or an UPDATE, which run the
-- setup machine and the dialog machine on one call, Router.Options the OPTIONS machine.
-- ControlPlane: engine/src/control_plane. The client owns the queue, the latch and a connection; its
-- handlers are functions on its state, and Client.Events lists what the executor runs.
-- Registrar: engine/src/sip/registrar. Registration takes a parsed REGISTER to a reply, the new
-- store and the mirrored events; Users and BindingStore are the two stores.
-- Routing: the routing table of engine/src/sip/route_table, the URI helpers of
-- engine/src/sip/router/extract_utils.cpp, and resolve_route of
-- engine/src/sip/call/setup_actions.cpp, which reads the three stores.
-- Media: engine/src/net/rtp/media_bridge.cpp and dtmf_pt_relay.hpp. Media.Bridge has the state and
-- the calls of the SIP thread, Relay the completions of the executor, Loop their sequences.
-- Tests: the theorems at concrete inputs.
--
-- How state is modelled: a class is a record of its members, an operation a function on it. A lock
-- makes a call one step; what is posted to an executor is an event of its own. Time is a number that
-- the caller reads from the clock, in nanoseconds. A signed field is a ℤ, a machine-width counter
-- keeps its modulus. A range-for over the table of calls whose body erases the call at the iterator
-- has no result.
--
-- Fuel: the process queue is bounded by 4 queued events in setup, 1 in the dialog and 0 in the
-- offer/answer machine, the longest chains of their tables. `Ends` is false where the fuel runs out,
-- so each theorem that says `Ends` shows that it does not.
-- The scan of an SDP's session lines takes one more than the text's length, since every turn drops a
-- character.
--
-- Parameters: the parsing of a websocket message (Glaze), PJSIP's digest verification, the printing of
-- an integer, the transcoder of engine/src/net/rtp, which wraps PJMEDIA's codecs (the opening of a
-- session and its conversion of a payload), the calls of PJSIP's invite sessions (the record `Pjsip`)
-- and of PJMEDIA's descriptions (the record `Pjmedia`), and the start, the busy test and the stopping
-- of the REFER handler's subscriptions. What a theorem assumes of one of them is its hypothesis: that
-- PJSIP verifies the first credential for the realm, of a user that the lookup finds, that
-- PJMEDIA finds an attribute that was added, no other, and none that was removed, and that a payload
-- type that was printed is read back and has its static name.
--
-- Not modelled: the subscriptions and notifications of the REFER handler, the router's callback for
-- REFER, the printing of an SDP, PJSIP's start-up, the conversion of audio,
-- sockets, logging, settings, the application's start and end, the vendored RTP library and the
-- TypeScript control plane.
pub mod Base
pub mod Protocols
pub mod Sm
pub mod ControlPlane
pub mod Call
pub mod Registrar
pub mod Routing
pub mod Sdp
pub mod Router
pub mod Media
pub mod Tests
