-- ===== src/Service/Calls.antt =====
-- The remote procedures, as steps of the node.
use adaptive_leader.Base.{
  ◌≡◌, refl, Bool, true, false, not, [], ◌∷◌, ◌++◌, inl, inr, Among-split, length, ltb,
  if◌then◌else◌, arith, Bool-cases,
}
use adaptive_leader.Messages.{ClientRequest}
use adaptive_leader.Node.Steps
use adaptive_leader.Node.Steps.{
  Input, pre_prepare, prepare, commit_vote, checkpoint, status_request, status_response,
  handle_input, take_request, get_status, request_arrives, input_arrives, disables, enables,
  task_runs, view_change_begins, new_view_arrives,
}
use adaptive_leader.Service.{
  Control, selecting, waiting, busy, is_selecting, is_waiting, Replica, request_capacity,
  put_or_ignore, request, receive, receive_pre_prepare, receive_prepare, receive_commit,
  receive_checkpoint, receive_get_status, receive_status, wake, sleep, enable, disable,
}
use adaptive_leader.Service.Simulates.{IsInStep, Simulates, IsReady, rests, one_step}

-- The flag where the loop waits.
pub enabled_at :
    (k : Control) (enabled : Bool) → is_selecting k ≡ true → IsInStep k enabled → enabled ≡ true
enabled_at selecting enabled is ready = ready
enabled_at waiting enabled is ready = absurd (ground arith)
enabled_at busy enabled is ready = absurd (ground arith)

disabled_at :
    (k : Control) (enabled : Bool) → is_waiting k ≡ true → IsInStep k enabled → enabled ≡ false
disabled_at selecting enabled is ready = absurd (ground arith)
disabled_at waiting enabled is ready = ready
disabled_at busy enabled is ready = absurd (ground arith)

pub request-Simulates :
    (s : Replica) (m : ClientRequest) → IsReady s → Simulates s (request s m).0 []
unfolding request put_or_ignore
request-Simulates s m ready = elim (Bool-cases s.service_enabled) [
  | inr off ↦ rw (off, request) (rests s s [] ready refl (λ m at. inl at))
  | inl on ↦ elim (Bool-cases (ltb (length s.requests) request_capacity)) [
    | inr full ↦ rw (on, full, request, put_or_ignore) (rests s s [] ready refl (λ m at. inl at))
    | inl room ↦
        rw (on, room, request, put_or_ignore)
          (rests s (record s { requests = s.requests ++ m ∷ [] }) [] ready refl (λ m at. inl at))
  ]
]

pub receive-Simulates : (s : Replica) (m : Input) → IsReady s → Simulates s (receive s m) (m ∷ [])
unfolding receive receive_pre_prepare receive_prepare receive_commit receive_checkpoint
    receive_get_status receive_status
receive-Simulates s m ready = received m
  where
    blocked :
        (u : Input)
        → Simulates s
            (if not s.service_enabled then s else record s { senders = s.senders ++ u ∷ [] })
            (u ∷ [])
    blocked u = elim (Bool-cases s.service_enabled) [
      | inr off ↦ rw off (rests s s (u ∷ []) ready refl (λ m at. inl at))
      | inl on ↦ rw on (
          rests s (record s { senders = s.senders ++ u ∷ [] }) (u ∷ []) ready refl
            (λ v at. Among-split v s.senders (u ∷ []) at))
    ]

    received : (u : Input) → Simulates s (receive s u) (u ∷ [])
    received (pre_prepare u) = blocked (pre_prepare u)
    received (prepare u) = blocked (prepare u)
    received (commit_vote u) = blocked (commit_vote u)
    received (checkpoint u) = blocked (checkpoint u)
    received (status_request u) = blocked (status_request u)
    received (status_response u) = blocked (status_response u)

pub enable-Simulates : (s : Replica) → IsReady s → Simulates s (enable s) []
unfolding enable put_or_ignore wake Steps.step
enable-Simulates s ready = signalled (is_waiting s.control) refl
  where
    signalled :
        (b : Bool)
        → is_waiting s.control ≡ b
        → Simulates s
            (record (if (put_or_ignore b (tt {0}) []).1 then wake s else s) {
              service_enabled = true;
            })
            []
    signalled false away =
        rests s (record s { service_enabled = true }) [] ready refl (λ m at. inl at)
    signalled true waits =
        let off = disabled_at s.control s.node.enabled waits ready in
        let on = record (wake s) { service_enabled = true } in
        one_step s on enables tt (ground (arith, off)) (λ m. cc) refl

pub disable-Simulates : (s : Replica) → IsReady s → Simulates s (disable s) []
unfolding disable put_or_ignore sleep Steps.step
disable-Simulates s ready = signalled (is_selecting s.control) refl
  where
    signalled :
        (b : Bool)
        → is_selecting s.control ≡ b
        → Simulates s
            (record (if (put_or_ignore b (tt {0}) []).1 then sleep s else s) {
              service_enabled = false;
            })
            []
    signalled false away =
        rests s (record s { service_enabled = false }) [] ready refl (λ m at. inl at)
    signalled true selects =
        let on = enabled_at s.control s.node.enabled selects ready in
        let off = record (sleep s) { service_enabled = false } in
        one_step s off disables tt (ground (arith, on)) (λ m. cc) refl
