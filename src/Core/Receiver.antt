-- ===== src/Core/Receiver.antt =====
-- The class `MulticastReceiver`. `S` is what the callback of the constructor acts on, the state of
-- the node that owns the receiver. What the socket answers is the environment's; a datagram that is
-- longer than the buffer is cut off at its size, as receive_from is documented to do. The thread of
-- the io_service runs the handlers one at a time.
pub mod Joining
pub mod Delivery
pub mod Sending
pub mod Life
use ssl_ros_bridge.Prelude.{
  ℕ, zero, suc, ◌≤◌, Bool, true, false, not, Option, none, some, List, [], ◌∷◌, ◌++◌, String, leb,
  if◌then◌else◌, length, take, drop, Call, returned, threw,
}
use text.Mathlib.Text.{◌==◌ as str_eq}

pub data Warning : Type 0 where
  -- with the interface's address
  join_failed : String → Warning
  send_too_long : Warning
  -- with the error's message
  receive_failed send_failed : String → Warning

-- An `async_send_to` whose handler has not run: how much of `send_buffer_` goes to which endpoint.
pub record PendingSend : Type 0 where
  pub endpoint : String × ℕ
  pub length : ℕ

pub record MulticastReceiver (S : Type 0) : Type 0 where
  pub owner : S
  pub warnings : List Warning
  -- the interfaces on which the group has been joined
  pub joined : List String
  -- an `async_receive_from` is under way
  pub receives : Bool
  pub send_buffer : List ℕ
  pub pending : List PendingSend
  -- the datagrams sent, latest last
  pub datagrams : List ((String × ℕ) × List ℕ)

abbrev pub buffer_size : ℕ
buffer_size = 4096

-- `set_option(join_group(...))` with an interface's address, which also has to be read.
pub data JoinAnswer : Type 0 where
  joins : JoinAnswer
  -- it throws a `system_error`, whose code is EADDRINUSE or not
  throws : Bool → JoinAnswer

pub record Socket : Type 0 where
  -- the group's address can be read, and the socket opened and bound
  pub binds : Bool
  pub join : String → JoinAnswer

-- What a receive completes with: an error, or the sender's address and port with the datagram.
pub data Completion : Type 0 where
  fails : String → Completion
  receives_from : String → ℕ → List ℕ → Completion

module _ {S : Type 0} where
  abbrev pub warn : Warning → MulticastReceiver S → MulticastReceiver S
  warn w r = record r { warnings = r.warnings ++ (w ∷ []) }

  abbrev pub join : String → MulticastReceiver S → MulticastReceiver S
  join address r = record r { joined = r.joined ++ (address ∷ []) }

  -- The loop over the addresses of all interfaces: EADDRINUSE is passed over.
  unfoldable pub join_on_all : Socket → List String → MulticastReceiver S → MulticastReceiver S
  join_on_all socket [] r = r
  join_on_all socket (address ∷ rest) r = elim (socket.join address) [
    | joins ↦ join_on_all socket rest (join address r)
    | throws true ↦ join_on_all socket rest r
    | throws false ↦ join_on_all socket rest (warn (join_failed address) r)
  ]

  unfoldable pub join_on_one : Socket → String → MulticastReceiver S → MulticastReceiver S
  join_on_one socket address r = elim (socket.join address) [
    | joins ↦ join address r
    | throws in_use ↦ warn (join_failed address) r
  ]

  abbrev pub unjoined : List ℕ → S → MulticastReceiver S
  unjoined memory owner = record {
    owner = owner;
    warnings = [];
    joined = [];
    receives = false;
    send_buffer = memory;
    pending = [];
    datagrams = [];
  }

  -- The constructor, with what `GetIpAdresses(false)` lists and what the memory of `send_buffer_`
  -- holds.
  unfoldable pub new_receiver :
      Socket → List String → List ℕ → String → S → Call (MulticastReceiver S)
  new_receiver socket available memory interface_address owner =
      let start = unjoined memory owner in
      if not socket.binds
      then threw
      else let r =
          if str_eq interface_address ""
          then join_on_all socket available start
          else join_on_one socket interface_address start in
        returned (record r { receives = true })

  -- `from_string` throws on a text that is no address, after the copy.
  unfoldable pub send_to :
      (String → Bool)
      → String
      → ℕ
      → List ℕ
      → MulticastReceiver S
      → Call (Unit {0}) × MulticastReceiver S
  send_to is_address address port data_ r =
      if leb buffer_size (length data_)
      then (returned tt, warn send_too_long r)
      else let r' = record r { send_buffer = data_ ++ drop (length data_) r.send_buffer } in
        if is_address address
        then (
          returned tt,
          record r' {
            pending =
                r'.pending ++ (record { endpoint = (address, port); length = length data_ } ∷ []);
          },
        )
        else (threw, r')

  -- The socket sends what the buffer holds when its turn comes, or fails; then `HandleUDPSendTo`.
  unfoldable pub complete_send : Option String → MulticastReceiver S → MulticastReceiver S
  complete_send error r = elim r.pending [
    | [] ↦ r
    | p ∷ rest ↦ elim error [
      | some message ↦ warn (send_failed message) (record r { pending = rest })
      | none ↦ record r {
        pending = rest;
        datagrams = r.datagrams ++ ((p.endpoint, take p.length r.send_buffer) ∷ []);
      }
    ]
  ]

  -- The destructor: the io_service is stopped and its thread joined, so no handler runs any more, and
  -- what was under way goes with the socket.
  unfoldable pub destroy : MulticastReceiver S → MulticastReceiver S
  destroy r = record r { receives = false; pending = [] }

module _ {S : Type 0} (receive_callback : String → ℕ → List ℕ → S → S) where
  -- `HandleMulticastReceiveFrom`: it is the handler of the receive that is under way.
  unfoldable pub handle_multicast_receive_from :
      Completion → MulticastReceiver S → MulticastReceiver S
  handle_multicast_receive_from (fails message) r =
      warn (receive_failed message) (record r { receives = false })
  handle_multicast_receive_from (receives_from address port datagram) r = record r {
    owner = receive_callback address port (take buffer_size datagram) r.owner;
    receives = true;
  }

  -- The thread's work: each handler that runs, while a receive is under way.
  unfoldable pub run_receives : List Completion → MulticastReceiver S → MulticastReceiver S
  run_receives [] r = r
  run_receives (c ∷ cs) r =
      if r.receives then run_receives cs (handle_multicast_receive_from c r) else r
