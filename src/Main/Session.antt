-- ===== src/Main/Session.antt =====
-- What the loop of a session keeps.
use industrial_control.Prelude.{◌≡◌, ◌++◌, true, false, Bool, List, [], ◌∷◌, arith, if◌then◌else◌}
use industrial_control.Outcome.{Outcome, ok, fault, ◌>>=◌, Ensures, Ensures-bind}
use industrial_control.Parser.State.{Engine}
use industrial_control.Parser.Header.{parse_header}
use industrial_control.Parser.Runs.{IsSound, parse_header-IsSound}
use industrial_control.Parser.Buffer.{msg_send_to_client}
use industrial_control.Server.{MsgRcv, control_receive_msg}
use industrial_control.Main.{Round, take_triggers, serve}

control_receive_msg-IsSound :
    (m : MsgRcv) (s : Engine) → IsSound s → IsSound (control_receive_msg m s).0
unfolding control_receive_msg msg_send_to_client
control_receive_msg-IsSound m s h = ground arith

take_triggers-IsSound : (r : Round) (s : Engine) → IsSound s → IsSound (take_triggers r s)
unfolding take_triggers
take_triggers-IsSound r s h = ground arith

-- What holds behind a round holds behind the rest of the session, if the rest keeps it.
pub goes_on {ℓ} :
    (P : Engine → Type ℓ) (running : Bool) (u : Engine) (rest : Outcome (Engine × Bool))
    → P u
    → Ensures (λ r. P r.0) rest
    → Ensures (λ r. P r.0) (if running then rest else ok (u, false))
goes_on P true u rest p kept = kept
goes_on P false u rest p kept = p

pub serve-IsSound :
    (rs : List Round) (s : Engine) → IsSound s → Ensures (λ r. IsSound r.0) (serve rs s)
unfolding serve
serve-IsSound [] s h = h
serve-IsSound (r ∷ rs) s h =
    let t = take_triggers r s in
    let m = control_receive_msg r.message t in
    Ensures-bind IsSound (λ r. IsSound r.0) (parse_header r.now r.env r.received m.0) _
      (parse_header-IsSound r.now r.env r.received m.0
        (control_receive_msg-IsSound r.message t (take_triggers-IsSound r s h)))
      (λ u q. goes_on IsSound m.1 u (serve rs u) q (serve-IsSound rs u q))

-- A loop that goes on behind some rounds takes the others from there.
pub serve-append :
    (before after : List Round) (s t : Engine)
    → serve before s ≡ ok (t, true)
    → serve (before ++ after) s ≡ serve after t
unfolding serve
serve-append [] after s t h = ground (arith, h)
serve-append (r ∷ before) after s t h =
    let m = control_receive_msg r.message (take_triggers r s) in
    behind (parse_header r.now r.env r.received m.0) m.1 (λ u. serve-append before after u t) h
  where
    behind :
        (o : Outcome Engine) (goes : Bool)
        → ((u : Engine) → serve before u ≡ ok (t, true) → serve (before ++ after) u ≡ serve after t)
        → (o >>= λ u. (if goes then serve before u else ok (u, false))) ≡ ok (t, true)
        → (o >>= λ u. (if goes then serve (before ++ after) u else ok (u, false))) ≡ serve after t
    behind (ok u) true rest e = rest u e
    behind (ok u) false rest e = ground (arith, e)
    behind (fault f) goes rest e = ground (arith, e)
