-- ===== src/Tests/Reconnection.antt =====
-- A connection between Ann and Bob after their first one.
use osvauld.Prelude.{true, false, [], ◌∷◌}
use osvauld.Storage.{user}
use osvauld.Peer.{Node}
use osvauld.Tests.Users as Data
use osvauld.Tests.Peers.{side, ann, bob, phone, laptop}

-- Ann and Bob know each other.
abbrev known_a : Node
known_a =
    side
      (record {
        users = ann ∷ Data.user "bob" false "to-ann" true ∷ [];
        devices = phone ∷ laptop ∷ [];
      })
      ann phone

abbrev known_b : Node
known_b =
    side
      (record {
        users = bob ∷ Data.user "ann" false "to-bob" true ∷ [];
        devices = laptop ∷ phone ∷ [];
      })
      bob laptop
