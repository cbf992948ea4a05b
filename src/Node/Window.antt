-- ===== src/Node/Window.antt =====
-- Which votes a node takes: those of its view and within its window of numbers.
use adaptive_leader.Base.{◌+◌, ◌≤◌, ◌<◌, ◌≡◌, ◌↔◌, ◌⊎◌, inl, inr, true, false, nat_eq, arith}
use adaptive_leader.Base.Int64.{Int64, int64, inc64, add64, max_int64}
use adaptive_leader.Messages.{PiggyBackedPrePareRequest, PrepareRequest, CommitRequest}
use adaptive_leader.Store.{get_sequence_number}
use adaptive_leader.Node.Defs.{Node, verify, sequence_in_water_mark}
use adaptive_leader.Node.Requests.{
  handle_pre_prepare_request, handle_prepare_request, handle_commit_request,
}

-- The number of a node's stable checkpoint, 0 without one.
abbrev stable_number : Node → Int64
stable_number n = get_sequence_number n.store.last_stable_checkpoint

-- A vote is verified if and only if it is for the node's view and its number is one of as many
-- numbers after the stable checkpoint as the interval says, unless these go beyond the greatest
-- int64.
pub verify_iff :
    (n : Node) (view_id sequence_number : Int64)
    → stable_number n + 1 + n.config.general.water_mark_interval ≤ max_int64
    → (verify n view_id sequence_number ≡ true) ↔ (
        (view_id ≡ n.view_data.current_view)
        × (stable_number n < sequence_number)
        × (sequence_number ≤ stable_number n + n.config.general.water_mark_interval))
unfolding verify sequence_in_water_mark
verify_iff n view_id sequence_number small =
    let low : inc64 (stable_number n) ≡ stable_number n + 1 = omega arith in
    let high : add64 (stable_number n + 1) (int64 n.config.general.water_mark_interval)
        ≡ stable_number n + 1 + n.config.general.water_mark_interval =
      omega arith in
    rw (low, high) (ground arith)

-- In a view change, or when none of them is verified, a node takes neither a pre-prepare nor a
-- prepare nor a commit: it stays as it is, and sends nothing.
unverified_ignored :
    (n : Node) (pre_prepare : PiggyBackedPrePareRequest) (prepare : PrepareRequest)
    (commit : CommitRequest)
    → (n.view_data.is_in_view_change ≡ true)
      ⊎ ((verify n pre_prepare.pre_prepare_request.view_id
              pre_prepare.pre_prepare_request.sequence_number
            ≡ false)
          × (verify n prepare.view_id prepare.sequence_number ≡ false)
          × (verify n commit.view_id commit.sequence_number ≡ false))
    → (handle_pre_prepare_request n pre_prepare ≡ n)
      × (handle_prepare_request n prepare ≡ n)
      × (handle_commit_request n commit ≡ n)
unfolding handle_pre_prepare_request handle_prepare_request handle_commit_request
unverified_ignored n pre_prepare prepare commit (inl changing) = ground (arith, changing)
unverified_ignored n pre_prepare prepare commit (inr (first, second, third)) =
    ground (arith, first, second, third)
