-- ===== src/ControlPlane/WsConnection.antt =====
-- One websocket connection: engine/src/control_plane/ws_connection.hpp and .cpp. The socket is
-- Glaze's; what it reports arrives as the callbacks below.
use sbc.Base.{
  refl, ℕ, String, ◌≡◌, Bool, true, false, not, ◌||◌, if◌then◌else◌, Option, none, some, List, [],
  ◌∷◌, ◌++◌, arith,
}

pub data WsStage : Type 0 where
  connect session : WsStage

-- The error codes that the source names, and any other.
pub data ErrorCode : Type 0 where
  connection_refused connection_reset timed_out : ErrorCode
  other_error : ℕ → ErrorCode

pub record WsConnection : Type 0 where
  pub is_open : Bool
  pub closed : Bool
  pub connecting : Bool  -- the connect timer runs

-- What the owner is told: the handlers of `WsHandlers`.
pub data Notice : Type 0 where
  opened : Notice
  received : String → Notice
  failed : WsStage → ErrorCode → Notice

-- `start` arms the connect timer.
unfoldable pub new_connection : WsConnection
new_connection = record { is_open = false; closed = false; connecting = true }

unfoldable pub cancel : WsConnection → WsConnection
cancel w = record { is_open = false; closed = true; connecting = false }

unfoldable pub fail : WsStage → ErrorCode → WsConnection → WsConnection × Option Notice
unfolding cancel
fail stage err w = if w.closed then (w, none) else (cancel w, some (failed stage err))

unfoldable pub on_open : WsConnection → WsConnection × Option Notice
on_open w =
    if w.closed then (w, none) else (record w { is_open = true; connecting = false }, some opened)

unfoldable pub on_message : String → Bool → WsConnection → WsConnection × Option Notice
on_message message is_text w =
    if w.closed || not is_text then (w, none) else (w, some (received message))

unfoldable on_close : WsConnection → WsConnection × Option Notice
unfolding fail
on_close w = if w.closed then (w, none) else fail session connection_reset w

unfoldable on_error : ErrorCode → WsConnection → WsConnection × Option Notice
unfolding fail
on_error err w = fail (if w.is_open then session else connect) err w

-- The connect timer's handler; a cancelled timer does nothing.
unfoldable on_connect_timeout : WsConnection → WsConnection × Option Notice
unfolding fail
on_connect_timeout w = if w.connecting then fail connect timed_out w else (w, none)

pub data WsCallback : Type 0 where
  opens : WsCallback
  messages : String → Bool → WsCallback
  closes : WsCallback
  errors : ErrorCode → WsCallback
  connect_times_out : WsCallback

unfoldable pub ws_step : WsCallback → WsConnection → WsConnection × Option Notice
unfolding on_open on_message on_close on_error on_connect_timeout
ws_step opens w = on_open w
ws_step (messages message is_text) w = on_message message is_text w
ws_step closes w = on_close w
ws_step (errors err) w = on_error err w
ws_step connect_times_out w = on_connect_timeout w

abbrev told : Option Notice → List Notice
told none = []
told (some n) = n ∷ []

-- What the owner is told over a run of callbacks.
abbrev pub notices : List WsCallback → WsConnection → List Notice
notices [] w = []
notices (e ∷ es) w = told (ws_step e w).1 ++ notices es (ws_step e w).0

abbrev is_failure : Notice → Bool
is_failure (failed stage err) = true
is_failure _ = false

-- A failure is the last thing that is told.
abbrev pub EndsAtFailure : List Notice → Type 0
EndsAtFailure [] = Unit {0}
EndsAtFailure (failed stage err ∷ ns) = ns ≡ []
EndsAtFailure (n ∷ ns) = EndsAtFailure ns

closed_silent : (es : List WsCallback) (w : WsConnection) → w.closed ≡ true → notices es w ≡ []
unfolding ws_step
closed_silent [] w h = refl
closed_silent (e ∷ es) w h = ground (arith, closed_silent es w h)

-- Whatever the socket reports, the owner is told of one failure at most, and of nothing after it;
-- a connection that its owner has cancelled reports nothing more.
pub ws_one_failure :
    (es : List WsCallback) (w : WsConnection)
    → EndsAtFailure (notices es w) × (notices es (cancel w) ≡ [])
unfolding ws_step
ws_one_failure es w = (ends es w, closed_silent es (cancel w) (ground arith))
  where
    ends : (es : List WsCallback) (w : WsConnection) → EndsAtFailure (notices es w)
    ends [] w = tt
    ends (e ∷ es) w = ground (arith, ends es (ws_step e w).0, closed_silent es (cancel w))
