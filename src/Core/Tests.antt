-- ===== src/Core/Tests.antt =====
-- Addresses, joins, receives and sends on small values.
use ssl_ros_bridge.Prelude.{
  ℕ, zero, suc, Option, ap, ◌≡◌, ◌≢◌, ◌≤◌, ◌<◌, ◌⊎◌, refl, Bool, true, false, List, [], ◌∷◌, ◌++◌,
  String, arith, map, All, none, returned, threw, take, length,
}
use text.Mathlib.Text.{◌==◌ as str_eq}
use ssl_ros_bridge.Core.Addresses.{
  Interface, without_address, ipv4, ipv6, of_other_family, memory_of, IsLaidOut, get_ip_adresses,
  all_texts, get_ip_adresses_lem,
}
use ssl_ros_bridge.Core.Receiver.{
  MulticastReceiver, buffer_size, join, join_on_one, destroy, join_failed, send_too_long, Socket,
  JoinAnswer, joins, throws, Completion, fails, receives_from, unjoined, new_receiver, run_receives,
  send_to, complete_send, warn,
}
use ssl_ros_bridge.Core.Receiver.Joining.{joining, failing, new_receiver_lem}
use ssl_ros_bridge.Core.Receiver.Delivery.{
  before_failure, first_failure, no_failure, call_each, run_receives_lem,
}
use ssl_ros_bridge.Core.Receiver.Life.{Event, completes, sends, sent, steps, life_lem}
use ssl_ros_bridge.Core.Receiver.Life.Bounds.{IsBounded}
use ssl_ros_bridge.Core.Receiver.Sending.{send_to-complete_send}

abbrev shown : List ℕ → String
shown [] = "empty"
shown (x ∷ xs) = "address"

abbrev interfaces : List Interface
interfaces =
    without_address
    ∷ ipv4 (2 ∷ 0 ∷ 0 ∷ 0 ∷ []) (10 ∷ 0 ∷ 0 ∷ 1 ∷ []) (0 ∷ 0 ∷ [])
    ∷ ipv6 (10 ∷ 0 ∷ 0 ∷ 0 ∷ []) (0 ∷ 0 ∷ 0 ∷ 0 ∷ [])
        (32 ∷ 1 ∷ 13 ∷ 184 ∷ 0 ∷ 0 ∷ 0 ∷ 0 ∷ 0 ∷ 0 ∷ 0 ∷ 0 ∷ 0 ∷ 0 ∷ 0 ∷ 1 ∷ []) []
    ∷ of_other_family []
    ∷ []

laid_out : All IsLaidOut interfaces
laid_out = ground arith

get_ip_adresses_lem_example :
    get_ip_adresses shown shown true (map memory_of interfaces)
    ≡ all_texts shown shown true interfaces
get_ip_adresses_lem_example = get_ip_adresses_lem shown shown true interfaces laid_out

-- One interface joins, the second is another address of it, and the third fails.
abbrev answer : String → JoinAnswer
answer address = elim (str_eq address "10.0.0.1") [
  | true ↦ joins
  | false ↦ throws (str_eq address "10.0.0.2")
]

abbrev socket : Socket
socket = record { binds = true; join = answer }

abbrev available : List String
available = "10.0.0.1" ∷ "10.0.0.2" ∷ "10.0.0.3" ∷ []

abbrev everywhere : String
everywhere = ""

new_receiver_lem_example :
    ((true ≡ false) × (new_receiver {S = ℕ} socket available [] "" 0 ≡ threw))
    ⊎ ((r : MulticastReceiver ℕ) × (true ≡ true)
        × (new_receiver {S = ℕ} socket available [] "" 0 ≡ returned r)
        × (r.receives ≡ true)
        × (r.owner ≡ 0)
        × (((everywhere ≡ "")
              × (r.joined ≡ joining socket available)
              × (r.warnings ≡ map join_failed (failing socket available)))
            ⊎ ((everywhere ≢ "") × (answer "" ≡ joins) × (r.joined ≡ "" ∷ []) × (r.warnings ≡ []))
            ⊎ ((everywhere ≢ "")
                × (answer "" ≢ joins)
                × (r.joined ≡ [])
                × (r.warnings ≡ join_failed "" ∷ []))))
new_receiver_lem_example = new_receiver_lem socket available [] "" 0

abbrev count : String → ℕ → List ℕ → List ℕ → List ℕ
count address port bytes seen = seen ++ (length bytes ∷ [])

abbrev listening : MulticastReceiver (List ℕ)
listening = record (unjoined (1 ∷ 2 ∷ 3 ∷ []) []) { receives = true }

abbrev completions : List Completion
completions =
    receives_from "10.0.0.1" 10003 (7 ∷ 8 ∷ [])
    ∷ fails "network down"
    ∷ receives_from "10.0.0.1" 10003 (9 ∷ [])
    ∷ []

run_receives_lem_example : run_receives count completions listening ≡ record listening {
  owner = call_each count (before_failure completions) [];
  warnings = [] ++ first_failure completions;
  receives = no_failure completions;
}
run_receives_lem_example = run_receives_lem count completions listening refl

abbrev any_address : String → Bool
any_address _ = true

send_to-complete_send_example :
    let (call, r') = send_to any_address "10.0.0.9" 5 (4 ∷ 5 ∷ []) listening in
    ((4096 ≤ 2) × (call ≡ returned tt) × (r' ≡ warn send_too_long listening))
    ⊎ ((2 < 4096)
        × (true ≡ false)
        × (call ≡ threw)
        × (r'.pending ≡ [])
        × (take 2 r'.send_buffer ≡ 4 ∷ 5 ∷ []))
    ⊎ ((2 < 4096)
        × (true ≡ true)
        × (call ≡ returned tt)
        × (complete_send none r' ≡ record listening {
          send_buffer = r'.send_buffer;
          datagrams = [] ++ ((("10.0.0.9", 5), 4 ∷ 5 ∷ []) ∷ []);
        }))
send_to-complete_send_example =
    send_to-complete_send any_address "10.0.0.9" 5 (4 ∷ 5 ∷ []) listening none refl

unfoldable zeros : ℕ → List ℕ
zeros zero = []
zeros (suc n) = 0 ∷ zeros n

length-zeros : (n : ℕ) → length (zeros n) ≡ n
unfolding zeros
length-zeros zero = refl
length-zeros (suc n) = ap suc (length-zeros n)

abbrev built : MulticastReceiver (List ℕ)
built = record (join "10.0.0.1" (unjoined (zeros buffer_size) [])) { receives = true }

building : new_receiver socket available (zeros buffer_size) "10.0.0.1" [] ≡ returned built
unfolding new_receiver join_on_one
building = refl

abbrev day : List Event
day =
    sends "10.0.0.9" 5 (4 ∷ 5 ∷ [])
    ∷ completes (receives_from "10.0.0.1" 10003 (7 ∷ 8 ∷ []))
    ∷ sent none
    ∷ completes (fails "network down")
    ∷ []

life_lem_example :
    let end = steps count any_address day built in
    IsBounded end
    × ((destroy end).owner ≡ end.owner)
    × ((cs : List Completion) → run_receives count cs (destroy end) ≡ destroy end)
    × ((error : Option String) → complete_send error (destroy end) ≡ destroy end)
life_lem_example =
    life_lem count any_address socket available (zeros buffer_size) "10.0.0.1" [] built day
      (length-zeros buffer_size) building
