-- ===== src/Socket.antt =====
-- The reconnecting socket, `useWebSocket` of dashboard/src/hooks/useWebSocket.ts. Each run of the
-- effect has an epoch, which stands for its own `cancelled` flag: a run is cancelled once it is not
-- the current epoch or the hook is stopped. The browser's WebSocket is the environment: it opens,
-- delivers, fails and closes the sockets in `live`, those whose close event has not arrived.
pub mod Retry
pub mod Alive
use sentinal.Base.{
  ℕ, ◌+◌, ◌*◌, ◌^◌, min, Bool, true, false, not, ◌&&◌, String, Option, none, some, List, [], ◌∷◌,
  if◌then◌else◌, ◌==◌, any, ◌≡◌,
}

pub record Socket : Type 0 where
  pub id : ℕ
  pub epoch : ℕ

pub record Hook (D : Type 0) : Type 0 where
  pub data_shown : Option D
  pub is_connected : Bool
  pub socket_ref : Option Socket
  pub retry_ref : ℕ
  pub epoch : ℕ
  pub running : Bool
  pub retry_timer : Option ℕ
  pub live : List Socket
  pub next_id : ℕ

-- What `JSON.parse` makes of a frame: nothing, or a value with the fields that the handler reads.
pub data Frame (D : Type 0) : Type 0 where
  malformed : Frame D
  parsed : Option String → Option D → D → Frame D

-- A JavaScript string is truthy unless it is empty.
abbrev truthy : Option String → Bool
truthy none = false
truthy (some String.[]) = false
truthy (some (String.◌∷◌ c s)) = true

unfoldable pub same_socket : Socket → Socket → Bool
same_socket a b = a.id == b.id && a.epoch == b.epoch

abbrev pub remove : Socket → List Socket → List Socket
remove s [] = []
remove s (x ∷ xs) = let rest = remove s xs in if same_socket x s then xs else x ∷ rest

abbrev pub contains : Socket → List Socket → Bool
contains s xs = any (λ x. same_socket x s) xs

-- `Math.min(30_000, 500 * 2 ** retryRef.current)`, in milliseconds.
unfoldable pub delay : ℕ → ℕ
delay retry = min 30000 (500 * 2 ^ retry)

module _ {D : Type 0} where
  unfoldable pub init : Hook D
  init = record {
    data_shown = none;
    is_connected = false;
    socket_ref = none;
    retry_ref = 0;
    epoch = 0;
    running = false;
    retry_timer = none;
    live = [];
    next_id = 0;
  }

  -- `connect()` in the current run of the effect.
  unfoldable pub connect : Hook D → Hook D
  connect h =
      let socket : Socket = record { id = h.next_id; epoch = h.epoch } in
      if h.running
      then record h { socket_ref = some socket; live = socket ∷ h.live; next_id = h.next_id + 1 }
      else h

  -- The effect runs for a new `url`; it does nothing for `null`.
  unfoldable pub start : Option String → Hook D → Hook D
  unfolding connect
  start none h = h
  start (some url) h =
      connect (record h { epoch = h.epoch + 1; running = true; retry_timer = none })

  -- The cleanup of the effect. `socketRef.current?.close()` is a request: the event comes later.
  unfoldable pub stop : Hook D → Hook D
  stop h = record h { running = false; retry_timer = none; socket_ref = none }

  unfoldable pub on_open : Socket → Hook D → Hook D
  on_open s h = record h { retry_ref = 0; is_connected = true }

  unfoldable pub on_message : Frame D → Hook D → Hook D
  on_message malformed h = h
  on_message (parsed type (some inner) whole) h = record h {
    data_shown = some (if truthy type then inner else whole);
  }
  on_message (parsed type none whole) h = record h { data_shown = some whole }

  -- `cancelled` of the run of the effect that made the socket.
  unfoldable pub cancelled : Socket → Hook D → Bool
  cancelled s h = not (h.running && s.epoch == h.epoch)

  unfoldable pub on_close : Socket → Hook D → Hook D
  unfolding cancelled
  on_close s h =
      let closed : Hook D = record h { is_connected = false; live = remove s h.live } in
      if cancelled s h
      then closed
      else record closed { retry_timer = some (delay h.retry_ref); retry_ref = h.retry_ref + 1 }

  -- The reconnect timer fires.
  unfoldable pub on_timer : Hook D → Hook D
  unfolding connect
  on_timer h = connect (record h { retry_timer = none })

  -- Steps of the component and of the browser. `onerror` only asks for a close.
  pub data Step : Hook D → Hook D → Type 0 where
    starts : (url : Option String) (h : Hook D) → h.running ≡ false → Step h (start url h)
    stops : (h : Hook D) → Step h (stop h)
    opens : (s : Socket) (h : Hook D) → contains s h.live ≡ true → Step h (on_open s h)
    receives : (f : Frame D) (h : Hook D) → Step h (on_message f h)
    errors : (s : Socket) (h : Hook D) → contains s h.live ≡ true → Step h h
    closes : (s : Socket) (h : Hook D) → contains s h.live ≡ true → Step h (on_close s h)
    fires : (d : ℕ) (h : Hook D) → h.retry_timer ≡ some d → Step h (on_timer h)

  pub data Reach (h : Hook D) : Hook D → Type 0 where
    here : Reach h h
    next : {t u : Hook D} → Reach h t → Step t u → Reach h u
