-- ===== src/Pool.antt =====
-- The connection pool, rwf/src/model/pool/mod.rs, with the flags of connection.rs and transaction.rs.
-- A connection is what the pool reads of it: whether it is bad, and when it was last used, in
-- milliseconds. The deque of idle connections is a list with its back at the head. `expected` is a
-- usize, which wraps as in a release build.
--
-- Tasks interleave between the sections that hold the lock. An event is one such section: which task
-- runs it, and when, is up to the list of events. A task that waits for a notification holds nothing
-- of the pool, so the notification is not part of the state.
pub mod Balance
pub mod Starvation
mod Tests
use rwf.Prelude.{
  ℕ, zero, suc, ◌+◌, ◌-◌, ◌%◌, ◌^◌, Option, none, some, List, [], ◌∷◌, Bool, true, false, not, ◌&&◌,
  ltb, length, if◌then◌else◌,
}
use rwf.Prelude.Picks.{pick}

pub record Connection : Type 0 where
  pub bad : Bool
  pub last_used : ℕ

-- `PoolInner`
pub record Inner : Type 0 where
  pub connections : List Connection
  pub expected : ℕ

-- `PoolConfig`; the checkout timeout is an event.
pub record Config : Type 0 where
  pub pool_size : ℕ
  pub idle_timeout : ℕ

-- `ConnectionGuard`, while it holds its connection
pub record Guard : Type 0 where
  pub connection : Connection
  pub rollback : Bool
  pub leaked : Bool

-- `self.expected -= n`
abbrev pub less : ℕ → ℕ → ℕ
less n a = (a + (2 ^ 64 - n)) % 2 ^ 64

abbrev retire : Inner → Inner
retire inner = record inner { expected = less 1 (inner.expected) }

-- The first section of `get_internal`: the last good connection; bad ones behind it are closed.
pop_from : List Connection → ℕ → Option Connection × Inner
pop_from [] expected = (none, record { connections = []; expected = expected })
pop_from (c ∷ cs) expected =
    let closed = pop_from cs (less 1 expected) in
    if c.bad then closed else (some c, record { connections = cs; expected = expected })

pub pop_idle : Inner → Option Connection × Inner
unfolding pop_from
pop_idle inner = pop_from inner.connections inner.expected

-- The second section: whether a connection may be opened; if so its place is taken.
pub need_more : Config → Inner → Bool × Inner
need_more config inner =
    if ltb inner.expected config.pool_size
    then (true, record inner { expected = inner.expected + 1 })
    else (false, inner)

pub checkin : Connection → Bool → Inner → Inner
checkin c drop inner =
    if not c.bad && not drop
    then record inner { connections = c ∷ inner.connections }
    else retire inner

-- The connections that `maintenance` keeps: `retain`
retain : Config → ℕ → List Connection → List Connection
retain config now [] = []
retain config now (c ∷ cs) =
    let kept = retain config now cs in
    if not c.bad && not (ltb config.idle_timeout (now - c.last_used)) then c ∷ kept else kept

pub maintenance : Config → ℕ → Inner → Inner
unfolding retain
maintenance config now inner =
    let kept = retain config now inner.connections in
    record {
      connections = kept;
      expected = less (length inner.connections - length kept) inner.expected;
    }

-- What tasks hold beside the idle connections: guards, the opening of a connection, a rollback. The
-- last field counts the openings that a checkout timeout has cancelled.
pub record Pool : Type 0 where
  pub inner : Inner
  pub guards : List Guard
  pub connecting : ℕ
  pub rolling_back : List Connection
  pub cancelled : ℕ

-- `Pool::new`
abbrev pub new : Pool
new = record {
  inner = record { connections = []; expected = 0 };
  guards = [];
  connecting = 0;
  rolling_back = [];
  cancelled = 0;
}

-- `ConnectionGuard::new`
abbrev pub guard : Connection → Guard
guard c = record { connection = c; rollback = false; leaked = false }

abbrev hold : Option Connection → Pool → Pool
hold none p = p
hold (some c) p = record p { guards = guard c ∷ p.guards }

-- `Drop for ConnectionGuard`, at the instant `now`
pub drop_guard : ℕ → Guard → Pool → Pool
unfolding checkin
drop_guard now g p =
    let c = record (g.connection) { last_used = now } in
    if g.leaked
    then p
    else if g.rollback
    then record p { rolling_back = c ∷ p.rolling_back }
    else record p { inner = checkin c false p.inner }

-- `ConnectionGuard::leak`
leak : Guard → Pool → Guard × Pool
leak g p =
    if g.leaked then (g, p) else (record g { leaked = true }, record p { inner = retire p.inner })

abbrev close : Connection → Connection
close c = record c { bad = true }

pub data Event : Type 0 where
  -- The two sections of `get_internal`, and how the opening of a connection ends: it is there, it
  -- failed, or the checkout timeout dropped the task.
  search reserve : Event
  connected : ℕ → Event
  connect_failed timed_out : Event
  -- Of the guard at an index: its drop, `leak`, `rollback` and `close`
  dropped : ℕ → ℕ → Event
  leaks rolls_back closes : ℕ → Event
  -- The connection of a rollback task at an index: whether ROLLBACK succeeded
  checkin_rollback : ℕ → Bool → Event
  -- An idle connection turns bad.
  broken : ℕ → Event
  maintains : ℕ → Event

abbrev pub held : (Guard → Pool → Pool) → Option (Guard × List Guard) → Pool → Pool
held f none p = p
held f (some (g, gs)) p = f g (record p { guards = gs })

abbrev put : Guard → Pool → Pool
put g p = record p { guards = g ∷ p.guards }

abbrev leaking : Guard × Pool → Pool
leaking (g, p) = put g p

pub leak_guard : Guard → Pool → Pool
unfolding leak
leak_guard g p = leaking (leak g p)

-- `ConnectionGuard::rollback`
pub roll_back : Guard → Pool → Pool
roll_back g p = put (record g { rollback = true }) p

-- `Connection::close`
pub close_guard : Guard → Pool → Pool
close_guard g p = put (record g { connection = close g.connection }) p

abbrev rolled : Bool → Option (Connection × List Connection) → Pool → Pool
rolled done none p = p
rolled done (some (c, cs)) p = record p { rolling_back = cs; inner = checkin c (not done) p.inner }

break_at : ℕ → List Connection → List Connection
break_at i [] = []
break_at zero (c ∷ cs) = close c ∷ cs
break_at (suc i) (c ∷ cs) = c ∷ break_at i cs

abbrev opened : Bool × Inner → Pool → Pool
opened (more, inner) p = record p {
  inner = inner;
  connecting = if more then p.connecting + 1 else p.connecting;
}

-- An opening ends: `f` is what becomes of its place.
abbrev ended : (Pool → Pool) → Pool → Pool
ended f p = elim p.connecting [ zero ↦ p | suc n ↦ f (record p { connecting = n }) ]

pub step : Config → Event → Pool → Pool
unfolding pop_idle need_more checkin maintenance pick drop_guard leak_guard roll_back close_guard
    break_at
step config search p = hold (pop_idle p.inner).0 (record p { inner = (pop_idle p.inner).1 })
step config reserve p = opened (need_more config p.inner) p
step config (connected now) p = ended (hold (some (record { bad = false; last_used = now }))) p
step config connect_failed p = ended (λ q. record q { inner = retire q.inner }) p
step config timed_out p = ended (λ q. record q { cancelled = q.cancelled + 1 }) p
step config (dropped i now) p = held (drop_guard now) (pick i p.guards) p
step config (leaks i) p = held leak_guard (pick i p.guards) p
step config (rolls_back i) p = held roll_back (pick i p.guards) p
step config (closes i) p = held close_guard (pick i p.guards) p
step config (checkin_rollback i done) p = rolled done (pick i p.rolling_back) p
step config (broken i) p = record p {
  inner = record (p.inner) { connections = break_at i p.inner.connections };
}
step config (maintains now) p = record p { inner = maintenance config now p.inner }

pub run : Config → List Event → Pool → Pool
unfolding step
run config [] p = p
run config (e ∷ es) p = run config es (step config e p)
