-- ===== src/Node/Command.antt =====
-- cmd/node/main.go: a node from its login to the signal that ends it.
use netproject.Shared.{ℕ, ◌≡◌, List, Bool, true, false, Option, none, some, arith}
use netproject.Shared.{ok}
use netproject.Netip.{NetText}
use netproject.Keys.{PublicKey, PrivateKey}
use netproject.Control.Service.{LoginResponse, UpdateResponse}
use netproject.Node.Controller.{Start}
use netproject.Node.Lifecycle.{Node, new_node_of, login, up_node, down_node}

-- `main`, on what the control server and the system answer; the UDP port is left to the system.
-- Without a login it returns at once; `none` is a panic of `Up`.
unfoldable pub main_node :
    ⦃text : NetText⦄
    → (PrivateKey → PublicKey)
    → List ℕ
    → Option LoginResponse
    → Option UpdateResponse
    → Start
    → Bool
    → Option Node
unfolding login up_node down_node new_node_of
main_node public_of random answer update start health =
    let (n, result) = login public_of random answer (new_node_of 0) in
    elim result [
      | ok _ ↦ elim (up_node update start health n) [ none ↦ none | some n' ↦ some (down_node n') ]
      | _ ↦ some n
    ]

down_node-running : (n : Node) → (down_node n).running ≡ false
unfolding down_node
down_node-running n = ground arith

-- When `main` returns the node does not run, but what `Up` brought up stays up: where the login
-- works, the controller is as `Up` left it.
pub main_node_lem :
    ⦃text : NetText⦄
    → (public_of : PrivateKey → PublicKey) (random : List ℕ) (answer : LoginResponse)
      (update : Option UpdateResponse) (start : Start) (health : Bool) (up n : Node)
    → answer.logged_in ≡ true
    → up_node update start health (login public_of random (some answer) (new_node_of 0)).0 ≡ some up
    → main_node public_of random (some answer) update start health ≡ some n
    → (n.running ≡ false) × (n.controller ≡ up.controller)
unfolding main_node login down_node
main_node_lem public_of random answer update start health up n logged u e =
    ground (arith, logged, u, e, down_node-running up)
