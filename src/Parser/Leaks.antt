-- ===== src/Parser/Leaks.antt =====
-- Every data file that is opened is closed: in its sequence, or by `parse_close`.
use industrial_control.Prelude.{ℕ, suc, ◌+◌, ◌≡◌, Option, none, some, List, [], ◌∷◌, refl, arith}
use industrial_control.Outcome.{Ensures}
use industrial_control.Parser.State.{
  HeaderState, ss_unknown, Stream, Event, transmit, notify, opened, closed, snapshot, Env, Engine,
}
use industrial_control.Parser.Buffer.{put, take_snapshot, notify_success}
use industrial_control.Parser.Header.{dispatch, step, parse_close}
use industrial_control.Parser.Status.{StatusOf, HasStatus}
use industrial_control.Parser.Files.{HasFiles}

-- How often a data file was opened, and how often one was closed.
abbrev pub opens : List Event → ℕ
opens [] = 0
opens (opened p ∷ es) = suc (opens es)
opens (transmit _ ∷ es) = opens es
opens (notify _ _ _ ∷ es) = opens es
opens (closed _ ∷ es) = opens es
opens (snapshot _ ∷ es) = opens es

abbrev pub closes : List Event → ℕ
closes [] = 0
closes (closed f ∷ es) = suc (closes es)
closes (transmit _ ∷ es) = closes es
closes (notify _ _ _ ∷ es) = closes es
closes (opened _ ∷ es) = closes es
closes (snapshot _ ∷ es) = closes es

abbrev pub held : Option Stream → ℕ
held none = 0
held (some f) = 1

-- What was opened and not closed is what the engine still holds.
abbrev pub IsBalanced : Engine → Type 0
IsBalanced s = opens s.events ≡ closes s.events + held s.f_rpt + held s.f_hst + held s.f_log

dispatch-IsBalanced :
    (q : HeaderState) (env : Env) (c : ℕ) (s : Engine)
    → s.header_state ≡ q
    → StatusOf q s.status
    → HasFiles s
    → IsBalanced s
    → Ensures IsBalanced (dispatch q env c s)
unfolding dispatch put take_snapshot notify_success
dispatch-IsBalanced ss_unknown env c s e w h b = ground arith
dispatch-IsBalanced _ env c s e w h b = ground arith

-- Where the status byte and the open files agree with the state, handling a byte keeps that what
-- was opened and not yet closed is what the engine holds: no open file is forgotten.
pub step-IsBalanced :
    (env : Env) (c : ℕ) (s : Engine)
    → HasStatus s
    → HasFiles s
    → IsBalanced s
    → Ensures IsBalanced (step env c s)
step-IsBalanced env c s w h b = dispatch-IsBalanced s.header_state env c s refl w h b

-- `parse_close` closes what is still open.
pub parse_close-closes :
    (s : Engine) → IsBalanced s → closes (parse_close s) ≡ opens (parse_close s)
unfolding parse_close
parse_close-closes s b = ground arith
