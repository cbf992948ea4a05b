-- ===== src/ViewChanger/Sender/Examples.antt =====
-- Two view changers of one process, whose configurations share the addresses.
use adaptive_leader.Base.{
  ◌≡◌, refl, true, some, [], ◌∷◌, GoString, All, List, keys, codes, lookup, insert, string_eq,
}
use adaptive_leader.Base.Int64.{int64}
use adaptive_leader.Samples.{peers, address, node_0, node_1, node_2, node_3}
use adaptive_leader.ViewChanger.Sender.{
  Heap, Sender, Sent, Message, new_view, new_sender, get_client, is_of_type, broadcast,
}
use adaptive_leader.ViewChanger.Sender.Ports.{
  others, Alone, new-Alone, get_client-Alone, Reaches, broadcast-Alone, second_sender_misses,
}

-- What the tests compute with.
evaluation : Unit {0}
unfolding new_sender get_client is_of_type broadcast lookup insert
evaluation = tt

abbrev announcement : Message
announcement = new_view (record {
  new_view_id = int64 1;
  view_change_proof = [];
  preprepares = [];
  replica_id = node_0;
})

abbrev sender : GoString → Sender
sender id = new_sender id (node_0 ∷ node_1 ∷ node_2 ∷ node_3 ∷ [])

broadcast-Alone_example :
    let ((s', heap'), sent) =
      broadcast (λ _. true) (sender node_0) peers (codes "NewView") announcement in
    Alone peers s' heap'
    × (keys sent ≡ others node_0 (node_0 ∷ node_1 ∷ node_2 ∷ node_3 ∷ []))
    × All (λ (e : GoString × List Sent). Reaches peers announcement e.0 e.1) sent
unfolding evaluation
broadcast-Alone_example =
    broadcast-Alone peers (sender node_0) peers (codes "NewView") announcement refl
      (new-Alone node_0 (node_0 ∷ node_1 ∷ node_2 ∷ node_3 ∷ []) peers)

-- Node 0's view changer has connected to node 3.
abbrev connected : Sender × Heap
connected = (get_client (λ _. true) (sender node_0) peers node_3).0

second_sender_misses_example :
    (get_client (λ _. true) (sender node_1) connected.1 node_3).1 ≡ some (address 7004)
unfolding evaluation
second_sender_misses_example =
    second_sender_misses peers connected.0 (sender node_1) connected.1 node_3 (address 5004)
      (get_client-Alone peers (sender node_0) peers node_3
        (new-Alone node_0 (node_0 ∷ node_1 ∷ node_2 ∷ node_3 ∷ []) peers)).0
      refl (λ e. cc) refl
