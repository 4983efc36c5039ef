-- ===== src/Console/Acknowledged.antt =====
-- The acknowledgement of a request to exit among the messages of the engine.
use industrial_control.Prelude.{
  ℕ, ◌≡◌, refl, inl, inr, Bool-cases, Bool, true, false, ◌&&◌, ◌||◌, List, [], ◌∷◌, ◌++◌, ◌==◌,
  Bytes, arith,
}
use industrial_control.Prelude.Bits.{has}
use industrial_control.Flags.{message_src}
use industrial_control.Outcome.{Outcome, ok, fault, Ensures}
use industrial_control.Parser.State.{Engine, Env}
use industrial_control.Parser.Header.{step, parse_header, snapshot_timer}
use industrial_control.Parser.Notices.{notices, Notifies, step-Notifies, completes}
use industrial_control.Parser.Runs.{parse_bytes_keeps}
use industrial_control.Client.{RspRcv}
use industrial_control.Control.Service.{mailbox}
use industrial_control.Console.Laws.{is_exit}

-- The acknowledgement of the request is among the messages.
abbrev pub is_acknowledged : List RspRcv → Bool
is_acknowledged [] = false
is_acknowledged (r ∷ rs) = is_exit r || is_acknowledged rs

pub is_acknowledged-append :
    (rs : List RspRcv) (r : RspRcv)
    → is_acknowledged (rs ++ (r ∷ [])) ≡ (is_acknowledged rs || is_exit r)
is_acknowledged-append [] r = ground arith
is_acknowledged-append (x ∷ rs) r = ground (arith, is_acknowledged-append rs r)

-- The engine has told the client so.
abbrev pub Acknowledges : ℕ → Engine → Type 0
Acknowledges client s = is_acknowledged (mailbox client (notices s.events)) ≡ true

-- Further messages take nothing away.
further_messages :
    (client q mtype : ℕ) (text : Bytes) (ns : List (ℕ × ℕ × Bytes))
    → is_acknowledged (mailbox client ns) ≡ true
    → is_acknowledged (mailbox client ((q, mtype, text) ∷ ns)) ≡ true
further_messages client q mtype text ns h = elim (Bool-cases (q == client)) [
  | inl own ↦ rw (own, is_acknowledged-append (mailbox client ns) _, h) refl
  | inr other ↦ rw (other, h) refl
]

Notifies-Acknowledges :
    (client c : ℕ) (s : Engine) (m : Outcome Engine)
    → Ensures (Notifies s.header_state c s) m
    → Acknowledges client s
    → Ensures (Acknowledges client) m
Notifies-Acknowledges client c s (ok t) told h =
    elim (Bool-cases (completes s.header_state c s && has s.control message_src)) [
      | inl tells ↦ rw told.0 (rw tells (further_messages client _ _ _ (notices s.events) h))
      | inr silent ↦ rw told.0 (rw silent h)
    ]
Notifies-Acknowledges client c s (fault e) told h = tt

pub parse_header-Acknowledges :
    (client now : ℕ) (env : ℕ → Env) (bytes : Bytes) (s : Engine)
    → Acknowledges client s
    → Ensures (Acknowledges client) (parse_header now env bytes s)
unfolding parse_header snapshot_timer
parse_header-Acknowledges client now env bytes s h =
    parse_bytes_keeps (Acknowledges client)
      (λ e c u. Notifies-Acknowledges client c u (step e c u) (step-Notifies e c u)) bytes env 0
      (snapshot_timer now s) (ground arith)
