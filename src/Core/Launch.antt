-- ===== src/Core/Launch.antt =====
-- What the constructors of the two bridges have in common: the parameters of their receiver.
use ssl_ros_bridge.Prelude.{
  ℕ, ℤ, ◌⊎◌, ◌≡◌, refl, inl, inr, true, false, Option, none, some, List, String, returned, threw,
  map, arith,
}
use ssl_ros_bridge.Core.Receiver.{MulticastReceiver, Socket, join_failed, new_receiver}
use ssl_ros_bridge.Core.Receiver.Joining.{joining, failing, new_receiver_lem}

-- The node's parameters, as far as they are given at launch.
pub record Overrides : Type 0 where
  pub address : Option String
  pub port : Option ℤ
  pub net_interface_address : Option String

-- rclcpp's `declare_parameter` with a default.
abbrev pub declare_parameter : {A : Type 0} → A → Option A → A
declare_parameter default none = default
declare_parameter default (some given) = given

-- A receiver whose socket binds, on all interfaces.
pub new_receiver-everywhere :
    {S : Type 0} (socket : Socket) (available : List String) (memory : List ℕ) (owner : S)
    → socket.binds ≡ true
    → (r : MulticastReceiver S) × (new_receiver socket available memory "" owner ≡ returned r)
      × (r.joined ≡ joining socket available)
      × (r.warnings ≡ map join_failed (failing socket available))
new_receiver-everywhere socket available memory owner binds =
    elim (new_receiver_lem socket available memory "" owner) [
      | inl (fails, thrown) ↦ absurd (ground arith)
      | inr (r, _, made, _, _, inl (_, joined, warned)) ↦ (r, made, joined, warned)
      | inr (r, _, made, _, _, inr (inl (named, _, _, _))) ↦ absurd (named refl)
      | inr (r, _, made, _, _, inr (inr (named, _, _, _))) ↦ absurd (named refl)
    ]

pub new_receiver-unbound :
    {S : Type 0} (socket : Socket) (available : List String) (memory : List ℕ)
    (interface_address : String) (owner : S)
    → socket.binds ≡ false
    → new_receiver socket available memory interface_address owner ≡ threw
new_receiver-unbound socket available memory interface_address owner fails =
    elim (new_receiver_lem socket available memory interface_address owner) [
      | inl (_, thrown) ↦ thrown
      | inr (r, binds, _, _, _, _) ↦ absurd (ground arith)
    ]

-- A parameter is what is given at launch, or else its default.
abbrev pub Chosen : {A : Type 0} → Option A → A → A → Type 0
Chosen override default value = (override ≡ some value) ⊎ ((override ≡ none) × (value ≡ default))

pub declare_parameter-Chosen :
    {A : Type 0} (default value : A) (override : Option A)
    → Chosen override default value
    → declare_parameter default override ≡ value
declare_parameter-Chosen default value override (inl given) = rw given refl
declare_parameter-Chosen default value override (inr (absent, same)) = rw (absent, same) refl
