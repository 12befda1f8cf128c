-- ===== src/Server/Conn/Settled.antt =====
-- Every state of the machine: what a step makes of a connection that is ready for it.
use mathlib.Core.Path.{subst}
use mathlib.Core.Option.{some-injective}
use mimino.Base.{[], some, ◌≡◌, refl, sym, ◌∙◌}
use mimino.Server.Types.{
  PollFd, ConnState, reading, writing_headers, writing_body, writing_finished, closing, Connection,
}
use mimino.Server.Pool.{state_events}
use mimino.Server.Conn.{World, After, do_state}
use mimino.Server.Conn.Ready.{Phase, Ready, Settled}
use mimino.Server.Conn.Steps.{SettledAll, do_body-Settled, do_headers-Settled}
use mimino.Server.Conn.Reads.{RecvFits, do_reading-Settled}

-- the same, by the state
by_state-Settled :
    (w : World) (pfd : PollFd) (conn : Connection) (s : ConnState)
    → conn.state ≡ s
    → pfd.fd ≡ conn.fd
    → pfd.events ≡ state_events s
    → Phase s conn
    → RecvFits w
    → SettledAll (do_state s w pfd conn)
unfolding do_state
by_state-Settled w pfd conn reading s f v p bounded =
    let (a, went, settled) = do_reading-Settled w pfd conn s f v p bounded in
    λ b h. subst Settled (some-injective a b (sym went ∙ h)) settled
by_state-Settled w pfd conn writing_headers s f v p bounded = do_headers-Settled w pfd conn s f v p
by_state-Settled w pfd conn writing_body s f v (q, r) bounded =
    do_body-Settled w pfd conn [] 0 s f v q r
by_state-Settled w pfd conn writing_finished s f v p bounded = elim p [ ]
by_state-Settled w pfd conn closing s f v p bounded = elim p [ ]

-- A step from a connection that is ready leaves one that is ready, or closes it.
pub do_state-Settled :
    (w : World) (pfd : PollFd) (conn : Connection) (a : After)
    → Ready pfd conn
    → RecvFits w
    → do_state conn.state w pfd conn ≡ some a
    → Settled a
do_state-Settled w pfd conn a ready bounded h =
    by_state-Settled w pfd conn conn.state refl ready.same ready.waits ready.phase bounded a h
