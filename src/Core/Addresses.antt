-- ===== src/Core/Addresses.antt =====
-- `GetIpAdresses` of get_ip_addresses.cpp, on what `getifaddrs` lists. A socket address is its family
-- and its bytes in memory; `inet_ntop` for the two families is a parameter.
use ssl_ros_bridge.Prelude.{
  ℕ, ◌≡◌, refl, Bool, true, false, Option, none, some, List, [], ◌∷◌, ◌++◌, String, length, take,
  drop, drop-append, take-append, take_add-append, take_within-append, arith, subst, map, All,
}

pub data SocketAddress : Type 0 where
  -- `AF_INET`, `AF_INET6`, and any other family
  inet inet6 other_family : List ℕ → SocketAddress

-- `offsetof(sockaddr_in, sin_addr)`, which follows the family and the port.
abbrev pub sin_addr_offset : ℕ
sin_addr_offset = 4

module _ (inet_ntop4 : List ℕ → String) (inet_ntop6 : List ℕ → String) where
  -- What one turn of the loop adds: `ifa_addr` is null, of IPv4, of IPv6, or of another family.
  unfoldable pub address_of : Bool → Option SocketAddress → List String
  address_of include_ipv6 none = []
  address_of include_ipv6 (some (inet bytes)) =
      inet_ntop4 (take 4 (drop sin_addr_offset bytes)) ∷ []
  address_of true (some (inet6 bytes)) = inet_ntop6 (take 16 (drop sin_addr_offset bytes)) ∷ []
  address_of false (some (inet6 bytes)) = []
  address_of include_ipv6 (some (other_family bytes)) = []

  unfoldable pub get_ip_adresses : Bool → List (Option SocketAddress) → List String
  get_ip_adresses include_ipv6 [] = []
  get_ip_adresses include_ipv6 (address ∷ rest) =
      address_of include_ipv6 address ++ get_ip_adresses include_ipv6 rest

-- An interface's address as the kernel writes it: `sockaddr_in` holds a family, a port, four bytes of
-- address and a padding; `sockaddr_in6` holds a family, a port, four bytes of flow information,
-- sixteen of address and four of scope.
pub data Interface : Type 0 where
  without_address : Interface
  ipv4 : List ℕ → List ℕ → List ℕ → Interface
  ipv6 : List ℕ → List ℕ → List ℕ → List ℕ → Interface
  of_other_family : List ℕ → Interface

abbrev pub memory_of : Interface → Option SocketAddress
memory_of without_address = none
memory_of (ipv4 start address padding) = some (inet (start ++ (address ++ padding)))
memory_of (ipv6 start flow_info address scope) =
    some (inet6 (start ++ (flow_info ++ (address ++ scope))))
memory_of (of_other_family bytes) = some (other_family bytes)

-- The start is the family and the port.
abbrev pub IsLaidOut : Interface → Type 0
IsLaidOut without_address = Unit
IsLaidOut (ipv4 start address padding) = (length start ≡ 4) × (length address ≡ 4)
IsLaidOut (ipv6 start flow_info address scope) =
    (length start ≡ 4) × (length flow_info ≡ 4) × (length address ≡ 16)
IsLaidOut (of_other_family bytes) = Unit

take_front : (n : ℕ) (xs ys : List ℕ) → length xs ≡ n → take n (xs ++ ys) ≡ xs
take_front n xs ys e = subst (λ m. take m (xs ++ ys) ≡ xs) e (take-append xs ys)

drop_front : (n : ℕ) (xs ys : List ℕ) → length xs ≡ n → drop n (xs ++ ys) ≡ ys
drop_front n xs ys e = subst (λ m. drop m (xs ++ ys) ≡ ys) e (drop-append xs ys)

module _ (inet_ntop4 : List ℕ → String) (inet_ntop6 : List ℕ → String) where
  -- What the bytes read of an interface say: of IPv6 the flow information and the first twelve bytes
  -- of the address.
  abbrev pub texts_of : Bool → Interface → List String
  texts_of include_ipv6 without_address = []
  texts_of include_ipv6 (ipv4 start address padding) = inet_ntop4 address ∷ []
  texts_of true (ipv6 start flow_info address scope) =
      inet_ntop6 (flow_info ++ take 12 address) ∷ []
  texts_of false (ipv6 start flow_info address scope) = []
  texts_of include_ipv6 (of_other_family bytes) = []

  abbrev pub all_texts : Bool → List Interface → List String
  all_texts include_ipv6 [] = []
  all_texts include_ipv6 (i ∷ is) = texts_of include_ipv6 i ++ all_texts include_ipv6 is

  address_of-memory_of :
      (include_ipv6 : Bool) (i : Interface)
      → IsLaidOut i
      → address_of inet_ntop4 inet_ntop6 include_ipv6 (memory_of i) ≡ texts_of include_ipv6 i
  unfolding address_of
  address_of-memory_of include_ipv6 without_address h = refl
  address_of-memory_of include_ipv6 (ipv4 start address padding) (h, k) =
      rw (drop_front 4 start (address ++ padding) h, take_front 4 address padding k) refl
  address_of-memory_of true (ipv6 start flow_info address scope) (h, k, l) =
      rw
        (
          drop_front 4 start (flow_info ++ (address ++ scope)) h,
          take_add-append 16 12 flow_info (address ++ scope) (omega arith),
          take_within-append 12 address scope (omega arith),
        )
        refl
  address_of-memory_of false (ipv6 start flow_info address scope) h = refl
  address_of-memory_of include_ipv6 (of_other_family bytes) h = refl

  -- On interfaces whose addresses are laid out so, the result is, in order, the text of each IPv4
  -- address and, if they are asked for, for each IPv6 address the text of its flow information and
  -- the first twelve bytes of the address, since both are read at the place of `sin_addr`.
  pub get_ip_adresses_lem :
      (include_ipv6 : Bool) (is : List Interface)
      → All IsLaidOut is
      → get_ip_adresses inet_ntop4 inet_ntop6 include_ipv6 (map memory_of is)
        ≡ all_texts include_ipv6 is
  unfolding get_ip_adresses
  get_ip_adresses_lem include_ipv6 [] h = refl
  get_ip_adresses_lem include_ipv6 (i ∷ is) (h, hs) =
      rw (address_of-memory_of include_ipv6 i h, get_ip_adresses_lem include_ipv6 is hs)
