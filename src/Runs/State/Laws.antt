-- ===== src/Runs/State/Laws.antt =====
-- What the transition table of backend/runs/state.py guarantees.
use super_mew.Prelude.{◌≡◌, refl, ◌↔◌, true, arith}
use super_mew.Runs.State.{
  RunStatus, queued, pending, running, waiting_input, cancelling, succeeded, failed, cancelled,
  same_status, is_terminal, can_transition,
}

pub same_status_iff : (a b : RunStatus) → (same_status a b ≡ true) ↔ (a ≡ b)
same_status_iff a b = ground arith

-- A status allows no transition but to itself exactly when it is terminal.
pub terminal_iff_stuck :
    (s : RunStatus) → (is_terminal s ≡ true) ↔ ((t : RunStatus) → can_transition s t ≡ true → t ≡ s)
unfolding can_transition
terminal_iff_stuck queued = (λ h. cc, λ f. cc (f pending refl))
terminal_iff_stuck pending = (λ h. cc, λ f. cc (f running refl))
terminal_iff_stuck running = (λ h. cc, λ f. cc (f failed refl))
terminal_iff_stuck waiting_input = (λ h. cc, λ f. cc (f failed refl))
terminal_iff_stuck cancelling = (λ h. cc, λ f. cc (f failed refl))
terminal_iff_stuck succeeded = (λ h t. ground arith, λ f. refl)
terminal_iff_stuck failed = (λ h t. ground arith, λ f. refl)
terminal_iff_stuck cancelled = (λ h t. ground arith, λ f. refl)
