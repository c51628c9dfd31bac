-- ===== src/RemoteAccess/WebSocket/Effects.antt =====
-- websocket_handler.go: what the handlers do to the session manager, as calls of its methods.
use onli_desk_full.Common.{
  ◌≡◌, refl, ap, sym, ◌∙◌, ℤ, String, Bool, true, false, Option, none, some, inl, inr, List, [],
  ◌∷◌, ◌++◌, if◌then◌else◌, All,
}
use onli_desk_full.Common.Map.{lookup}
use onli_desk_full.RemoteAccess.Session.{Session, Conn, Result, ok, err, Result-cases}
use onli_desk_full.RemoteAccess.Session.Calls as SessionCalls
use onli_desk_full.RemoteAccess.Manager.{
  Manager, Created, created, refused, panicked, put_session, register_connection,
}
use onli_desk_full.RemoteAccess.Manager.Calls.{
  Call, creates, registers, terminates, requests, approves, denies, revokes, direct, step, run,
  after, call_session,
}
use onli_desk_full.RemoteAccess.WebSocket.Messages.{Response}
use onli_desk_full.RemoteAccess.WebSocket.{
  WebSocketHandler, Handled, send_json, answer, register_created,
}
use onli_desk_full.RemoteAccess.WebSocket.Forward.{send_to}

-- The calls that a message can lead to: a session's methods that count commands, transfers and
-- screenshots or note an activity, and the manager's methods other than `UnregisterConnection`,
-- `UpdateConfig`, `Shutdown` and the cleanup.
abbrev pub Counts : SessionCalls.Call → Type 0
Counts (SessionCalls.touches now) = Unit
Counts (SessionCalls.commands now text) = Unit
Counts (SessionCalls.transfers now bytes) = Unit
Counts (SessionCalls.screenshots now) = Unit
Counts _ = ⊥

abbrev pub OfMessage : Call → Type 0
OfMessage (creates fresh now client portal info) = Unit
OfMessage (registers now id c role) = Unit
OfMessage (terminates now id) = Unit
OfMessage (requests fresh now id type text d) = Unit
OfMessage (approves now id k by) = Unit
OfMessage (denies now id k by) = Unit
OfMessage (revokes now id type) = Unit
OfMessage (direct id c) = Counts c
OfMessage _ = ⊥

-- The second manager comes of the first by such calls.
pub record Calls (m m' : Manager) : Type 0 where
  pub calls : List Call
  pub allowed : All OfMessage calls
  pub ran : m' ≡ run m calls

run-append : (m : Manager) (cs ds : List Call) → run m (cs ++ ds) ≡ run (run m cs) ds
unfolding run
run-append m [] ds = refl
run-append m (c ∷ cs) ds = run-append (step m c) cs ds

All-append : (cs ds : List Call) → All OfMessage cs → All OfMessage ds → All OfMessage (cs ++ ds)
All-append [] ds p q = q
All-append (c ∷ cs) ds p q = (p.0, All-append cs ds p.1 q)

pub Calls-refl : (m : Manager) → Calls m m
unfolding run
Calls-refl m = record { calls = []; allowed = tt; ran = refl }

pub Calls-trans : {a b c : Manager} → Calls a b → Calls b c → Calls a c
Calls-trans {a} {b} {c} p q = record {
  calls = p.calls ++ q.calls;
  allowed = All-append p.calls q.calls p.allowed q.allowed;
  ran = q.ran ∙ ap (λ m. run m q.calls) p.ran ∙ sym (run-append a p.calls q.calls);
}

pub one_call : (m : Manager) (c : Call) → OfMessage c → (m' : Manager) → m' ≡ step m c → Calls m m'
unfolding run
one_call m c g m' e = record { calls = c ∷ []; allowed = (g, tt); ran = e }

pub Calls-if :
    (b : Bool) {A : Type 0} (f : A → Manager) (m : Manager) (x y : A)
    → Calls m (f x)
    → Calls m (f y)
    → Calls m (f (if b then x else y))
Calls-if true f m x y p q = p
Calls-if false f m x y p q = q

-- What the session methods do through the pointer in the map.
pub touch-Calls :
    (id : String) (s : Session) (c : SessionCalls.Call) (h : WebSocketHandler)
    → Counts c
    → lookup id h.session_manager.sessions ≡ some s
    → Calls h.session_manager (put_session id (SessionCalls.step s c) h.session_manager)
unfolding step call_session
touch-Calls id s c h g e =
    one_call h.session_manager (direct id c) g _ (sym (rw (e, call_session) refl))

-- A handler's effect on the session manager.
pub record Does (h : WebSocketHandler) (r : WebSocketHandler × Handled) : Type 0 where
  pub does : Calls h.session_manager r.0.session_manager

pub nothing_done : (h : WebSocketHandler) (x : Handled) → Does h (h, x)
nothing_done h x = record { does = Calls-refl h.session_manager }

pub Does-if :
    {h : WebSocketHandler} (b : Bool) {x y : WebSocketHandler × Handled}
    → Does h x
    → Does h y
    → Does h (if b then x else y)
Does-if true p q = p
Does-if false p q = q

module _ (up : Conn → Response → Bool) where
  -- Sending does not touch the manager.
  pub send_json-Does :
      (h g : WebSocketHandler) (c : Conn) (r : Response)
      → Calls h.session_manager g.session_manager
      → Does h (send_json up c r g)
  unfolding send_json
  send_json-Does h g c r d = Does-if (up c r) (record { does = d }) (record { does = d })

  pub answer-Does :
      (h : WebSocketHandler) (what : String) (c : Conn) (r : Response) (result : Result Manager)
      (call : Call)
      → OfMessage call
      → after h.session_manager result ≡ step h.session_manager call
      → Does h (answer up what c r result h)
  unfolding answer
  answer-Does h what c r (err x) call g e = nothing_done h _
  answer-Does h what c r (ok m) call g e =
      send_json-Does h (record h { session_manager = m }) c r
        (one_call h.session_manager call g m e)

  pub send_to-Does :
      (h g : WebSocketHandler) (c : Option Conn) (r : Response)
      → Calls h.session_manager g.session_manager
      → Does h (send_to up c r g)
  unfolding send_to
  send_to-Does h g none r d = record { does = d }
  send_to-Does h g (some c) r d = send_json-Does h g c r d

  -- The registration of a connection, after what was done before.
  pub registered :
      (now : ℤ) (id role : String) (c : Conn) {a : Manager} (m m' : Manager)
      → Calls a m
      → register_connection now id c role m ≡ ok m'
      → Calls a m'
  unfolding step
  registered now id role c m m' d e =
      Calls-trans d (one_call m (registers now id c role) tt m' (sym (ap (after m) e)))

  pub register_created-Does :
      (now : ℤ) (c : Conn) (x : Manager × Created) (h : WebSocketHandler)
      → Calls h.session_manager x.0
      → Does h (register_created up now c x h)
  unfolding register_created
  register_created-Does now c (m, refused e) h d = record { does = d }
  register_created-Does now c (m, panicked) h d = record { does = d }
  register_created-Does now c (m, created s) h d =
      elim (Result-cases (register_connection now s.id c "client" m)) [
        | inl (x, e) ↦ rw (e, register_created) (record { does = d })
        | inr (m', e) ↦
            rw (e, register_created)
              (send_json-Does h (record h { session_manager = m' }) c _
                (registered now s.id "client" c m m' d e))
      ]
