-- ===== src/Socket/Connection.antt =====
-- The socket and the timer that opens it anew (`connect` and the effect of `WebSocketProvider`). The
-- state counts the sockets that have not closed and the timers that are pending.
use multi_robot_supervision.Prelude.{
  ℕ, suc, ◌+◌, ◌≤◌, ◌-◌, Bool, true, false, ◌≡◌, arith, if◌then◌else◌, ◌&&◌, ◌||◌, not, eqb,
}

-- `ref` is whether `wsRef` holds a socket, `is_open` whether that socket is open.
pub record Connection : Type 0 where
  pub is_connected : Bool
  pub ref : Bool
  pub is_open : Bool
  pub sockets : ℕ
  pub timers : ℕ

abbrev pub nothing : Connection
nothing = record { is_connected = false; ref = false; is_open = false; sockets = 0; timers = 0 }

unfoldable pub connect : Connection → Connection
connect c =
    if c.ref && c.is_open
    then c
    else record c { ref = true; is_open = false; sockets = suc (c.sockets) }

unfoldable pub on_open : Connection → Connection
on_open c = record c { is_connected = true; is_open = true }

-- A socket has closed: the reference is dropped, and a timer is set.
unfoldable pub on_close : Connection → Connection
on_close c = record c {
  is_connected = false;
  ref = false;
  is_open = false;
  sockets = c.sockets - 1;
  timers = suc (c.timers);
}

-- The timer has run out.
unfoldable pub on_timeout : Connection → Connection
unfolding connect
on_timeout c = connect (record c { timers = c.timers - 1 })

-- The clean-up of the effect: the last timer is cleared, and the socket is asked to close, which is
-- reported later.
unfoldable pub unmount : Connection → Connection
unmount c = record c { timers = c.timers - 1 }

-- What happens while the provider is mounted. A socket opens or closes only if there is one, and a timer
-- runs out only if it is pending.
pub data Step (c : Connection) : Connection → Type 0 where
  opens : (1 ≤ c.sockets) → Step c (on_open c)
  closes : (1 ≤ c.sockets) → Step c (on_close c)
  fires : (1 ≤ c.timers) → Step c (on_timeout c)

pub data Reach (c : Connection) : Connection → Type 0 where
  here : Reach c c
  next : {d e : Connection} → Reach c d → Step d e → Reach c e

-- One socket or one timer, never both; the reference holds the socket, and what is shown as connected
-- is a socket.
abbrev pub IsAlive : Connection → Type 0
IsAlive c =
    (c.sockets + c.timers ≡ 1)
    × (c.ref ≡ eqb (c.sockets) 1)
    × ((not (c.is_connected) || eqb (c.sockets) 1) ≡ true)

Step-IsAlive : {c d : Connection} → Step c d → IsAlive c → IsAlive d
unfolding on_open on_close on_timeout connect
Step-IsAlive {c} (Step.opens h) a = ground arith
Step-IsAlive {c} (Step.closes h) a = ground arith
Step-IsAlive {c} (Step.fires h) a = ground arith

-- From a mounted provider on, whatever the socket does: there is one socket or one pending timer, never
-- both and never none, so that a lost connection is always opened anew.
pub Reach-IsAlive : {c : Connection} → Reach (connect nothing) c → IsAlive c
unfolding connect
Reach-IsAlive Reach.here = ground arith
Reach-IsAlive (Reach.next r s) = Step-IsAlive s (Reach-IsAlive r)

-- If the provider is unmounted while there is a socket, the closing of that socket sets a timer, and
-- when the timer has run out there is a socket again.
pub unmount_reopens :
    {c : Connection}
    → Reach (connect nothing) c
    → c.sockets ≡ 1
    → (on_timeout (on_close (unmount c))).sockets ≡ 1
unfolding on_timeout on_close unmount connect
unmount_reopens {c} r one = ground (arith, (Reach-IsAlive r).1)
