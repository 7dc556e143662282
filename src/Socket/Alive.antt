-- ===== src/Socket/Alive.antt =====
-- A running hook always has exactly one way back to its stream: one socket of the current run of
-- the effect, or one pending reconnect.
use sentinal.Base.{
  ℕ, ◌+◌, ◌≤◌, ◌≡◌, refl, true, false, String, Option, none, some, List, [], ◌∷◌, arith, count,
  ◌==◌, All,
}
use sentinal.Socket.{
  Socket, Hook, Step, starts, stops, opens, receives, errors, closes, fires, Reach, here, next,
  init, start, stop, on_open, on_message, on_close, on_timer, cancelled, same_socket, remove,
  contains, malformed, parsed, Frame,
}

abbrev pub current : ℕ → List Socket → ℕ
current e ss = count (λ s. s.epoch == e) ss

abbrev pub armed : Option ℕ → ℕ
armed none = 0
armed (some d) = 1

-- No socket is of a later run.
abbrev Past : ℕ → List Socket → Type 0
Past e ss = All (λ s. s.epoch ≤ e) ss

pub record IsAlive {D : Type 0} (h : Hook D) : Type 0 where
  pub one_way : h.running ≡ true → current h.epoch h.live + armed h.retry_timer ≡ 1
  pub quiet : h.running ≡ false → h.retry_timer ≡ none
  pub past : Past h.epoch h.live

Past-none : (e : ℕ) (ss : List Socket) → Past e ss → current (e + 1) ss ≡ 0
Past-none e [] p = refl
Past-none e (s ∷ ss) p = ground (arith, Past-none e ss p.1)

Past-later : (e : ℕ) (ss : List Socket) → Past e ss → Past (e + 1) ss
Past-later e [] p = tt
Past-later e (s ∷ ss) p = (omega arith, Past-later e ss p.1)

Past-remove : (e : ℕ) (s : Socket) (ss : List Socket) → Past e ss → Past e (remove s ss)
Past-remove e s [] p = tt
Past-remove e s (x ∷ ss) p = ground (arith, Past-remove e s ss p.1)

count-remove :
    (e : ℕ) (s : Socket) (ss : List Socket)
    → contains s ss ≡ true
    → current e (remove s ss) + current e (s ∷ []) ≡ current e ss
unfolding same_socket
count-remove e s [] c = cc
count-remove e s (x ∷ ss) c = ground (arith, count-remove e s ss)

module _ {D : Type 0} where
  init-IsAlive : IsAlive (init {D = D})
  unfolding init
  init-IsAlive = ground arith

  start-IsAlive :
      (url : Option String) (h : Hook D) → h.running ≡ false → IsAlive h → IsAlive (start url h)
  unfolding start
  start-IsAlive none h stopped v = v
  start-IsAlive (some url) h stopped v =
      ground (arith, Past-none h.epoch h.live v.past, Past-later h.epoch h.live v.past)

  stop-IsAlive : (h : Hook D) → IsAlive h → IsAlive (stop h)
  unfolding stop
  stop-IsAlive h v = ground arith

  on_message-IsAlive : (f : Frame D) (h : Hook D) → IsAlive h → IsAlive (on_message f h)
  unfolding on_message
  on_message-IsAlive malformed h v = v
  on_message-IsAlive (parsed type (some inner) whole) h v = ground arith
  on_message-IsAlive (parsed type none whole) h v = ground arith

  on_close-IsAlive :
      (s : Socket) (h : Hook D) → contains s h.live ≡ true → IsAlive h → IsAlive (on_close s h)
  unfolding on_close
  on_close-IsAlive s h c v =
      ground (arith, count-remove h.epoch s h.live c, Past-remove h.epoch s h.live v.past)

  on_timer-IsAlive :
      (d : ℕ) (h : Hook D) → h.retry_timer ≡ some d → IsAlive h → IsAlive (on_timer h)
  unfolding on_timer
  on_timer-IsAlive d h e v = ground arith

  Step-IsAlive : {h k : Hook D} → Step h k → IsAlive h → IsAlive k
  unfolding on_open
  Step-IsAlive (starts url h r) v = start-IsAlive url h r v
  Step-IsAlive (stops h) v = stop-IsAlive h v
  Step-IsAlive (opens s h c) v = ground arith
  Step-IsAlive (receives f h) v = on_message-IsAlive f h v
  Step-IsAlive (errors s h c) v = v
  Step-IsAlive (closes s h c) v = on_close-IsAlive s h c v
  Step-IsAlive (fires d h e) v = on_timer-IsAlive d h e v

  Reach-IsAlive : {h k : Hook D} → IsAlive h → Reach h k → IsAlive k
  Reach-IsAlive v here = v
  Reach-IsAlive v (next r st) = Step-IsAlive st (Reach-IsAlive v r)

  -- In every state that the hook reaches: while the effect runs, the sockets of its run whose close
  -- has not arrived and the pending reconnect are together exactly one; while it does not run, no
  -- reconnect is pending; and no socket is of a later run.
  pub Reach-init-IsAlive : (h : Hook D) → Reach init h → IsAlive h
  Reach-init-IsAlive h r = Reach-IsAlive init-IsAlive r

  -- A close event of a socket that an earlier run made, which arrives while the current run has its
  -- own socket, marks the hook disconnected, keeps that socket and schedules no reconnect.
  pub stale_close :
      (s : Socket) (h : Hook D)
      → IsAlive h
      → h.running ≡ true
      → h.retry_timer ≡ none
      → contains s h.live ≡ true
      → cancelled s h ≡ true
      → ((on_close s h).is_connected ≡ false)
        × (current (on_close s h).epoch (on_close s h).live ≡ 1)
        × ((on_close s h).retry_timer ≡ none)
  unfolding on_close
  stale_close s h v r t c x = ground (arith, count-remove h.epoch s h.live c)
