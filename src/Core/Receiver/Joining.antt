-- ===== src/Core/Receiver/Joining.antt =====
-- The constructor of `MulticastReceiver`: the interfaces on which the group is joined.
use text.Mathlib.Text.{◌==◌ as str_eq}
use text.Mathlib.TextEquality.{eq_iff}
use ssl_ros_bridge.Prelude.{
  ℕ, ◌≡◌, ◌≢◌, refl, ◌∙◌, ◌⊎◌, inl, inr, Bool, Bool-cases, true, false, List, [], ◌∷◌, ◌++◌, String,
  arith, returned, threw, map,
}
use mathlib.Core.List.{append-nil, append_assoc}
use ssl_ros_bridge.Core.Receiver.{
  MulticastReceiver, join_failed, Socket, JoinAnswer, joins, throws, warn, join, unjoined,
  join_on_all, join_on_one, new_receiver,
}

JoinAnswer-cases : (a : JoinAnswer) → (a ≡ joins) ⊎ (a ≡ throws true) ⊎ (a ≡ throws false)
JoinAnswer-cases joins = inl refl
JoinAnswer-cases (throws true) = inr (inl refl)
JoinAnswer-cases (throws false) = inr (inr refl)

pub join_answer : (a : JoinAnswer) → (a ≡ joins) ⊎ ((in_use : Bool) × (a ≡ throws in_use))
join_answer joins = inl refl
join_answer (throws in_use) = inr (in_use, refl)

module _ (socket : Socket) where
  -- The addresses of the interfaces that join, and of those that fail for another reason than
  -- EADDRINUSE.
  abbrev pub joining : List String → List String
  joining [] = []
  joining (address ∷ rest) = elim (socket.join address) [
    | joins ↦ address ∷ joining rest
    | throws in_use ↦ joining rest
  ]

  abbrev pub failing : List String → List String
  failing [] = []
  failing (address ∷ rest) = elim (socket.join address) [
    | joins ↦ failing rest
    | throws true ↦ failing rest
    | throws false ↦ address ∷ failing rest
  ]

  pub join_on_all_lem :
      {S : Type 0} (available : List String) (r : MulticastReceiver S)
      → join_on_all socket available r ≡ record r {
        joined = r.joined ++ joining available;
        warnings = r.warnings ++ map join_failed (failing available);
      }
  unfolding join_on_all
  join_on_all_lem [] r = rw (append-nil r.joined, append-nil r.warnings) refl
  join_on_all_lem (address ∷ rest) r = elim (JoinAnswer-cases (socket.join address)) [
    | inl e ↦
        let again = join_on_all_lem rest (join address r) in
        rw (join_on_all, joining, failing, e) (again ∙ rw append_assoc refl)
    | inr (inl e) ↦ rw (join_on_all, joining, failing, e) (join_on_all_lem rest r)
    | inr (inr e) ↦
        let again = join_on_all_lem rest (warn (join_failed address) r) in
        rw (join_on_all, joining, failing, e) (again ∙ rw append_assoc refl)
  ]

  named : {name : String} → str_eq name "" ≡ false → name ≢ ""
  named {name = name} h e = absurd (ground (arith, (eq_iff name "").1 e))

  -- A receiver whose socket binds is constructed and receives. Without an interface's address it has
  -- joined the group on each interface that lets it, in order, and warned of each that fails, but for
  -- those whose code is EADDRINUSE. With one it has joined on that or warned of it, whatever the code.
  pub new_receiver_lem :
      {S : Type 0} (available : List String) (memory : List ℕ) (interface_address : String)
      (owner : S)
      → ((socket.binds ≡ false)
          × (new_receiver socket available memory interface_address owner ≡ threw))
        ⊎ ((r : MulticastReceiver S) × (socket.binds ≡ true)
            × (new_receiver socket available memory interface_address owner ≡ returned r)
            × (r.receives ≡ true)
            × (r.owner ≡ owner)
            × (((interface_address ≡ "")
                  × (r.joined ≡ joining available)
                  × (r.warnings ≡ map join_failed (failing available)))
                ⊎ ((interface_address ≢ "")
                    × (socket.join interface_address ≡ joins)
                    × (r.joined ≡ interface_address ∷ [])
                    × (r.warnings ≡ []))
                ⊎ ((interface_address ≢ "")
                    × (socket.join interface_address ≢ joins)
                    × (r.joined ≡ [])
                    × (r.warnings ≡ join_failed interface_address ∷ []))))
  unfolding new_receiver join_on_one
  new_receiver_lem available memory interface_address owner = elim (Bool-cases socket.binds) [
    | inr b ↦ inl (b, rw (b, new_receiver) refl)
    | inl b ↦ elim (Bool-cases (str_eq interface_address "")) [
      | inl e ↦ inr (
        record (join_on_all socket available (unjoined memory owner)) { receives = true },
        b,
        rw (b, e, new_receiver) refl,
        refl,
        rw (join_on_all_lem available (unjoined memory owner)) refl,
        inl (
          (eq_iff interface_address "").0 e,
          rw (join_on_all_lem available (unjoined memory owner)) refl,
          rw (join_on_all_lem available (unjoined memory owner)) refl,
        ),
      )
      | inr n ↦ elim (join_answer (socket.join interface_address)) [
        | inl j ↦ inr (
          record (join interface_address (unjoined memory owner)) { receives = true },
          b,
          rw (b, n, new_receiver, join_on_one, j) refl,
          refl,
          refl,
          inr (inl (named n, j, refl, refl)),
        )
        | inr (in_use, j) ↦ inr (
          record (warn (join_failed interface_address) (unjoined memory owner)) { receives = true },
          b,
          rw (b, n, new_receiver, join_on_one, j) refl,
          refl,
          refl,
          inr (inr (named n, λ k. absurd (ground arith), refl, refl)),
        )
      ]
    ]
  ]

  pub constructed :
      {S : Type 0} (available : List String) (memory : List ℕ) (interface_address : String)
      {owner : S} {r : MulticastReceiver S}
      → new_receiver socket available memory interface_address owner ≡ returned r
      → (r.receives ≡ true) × (r.owner ≡ owner)
  constructed available memory interface_address {owner} {r} e =
      elim (new_receiver_lem available memory interface_address owner) [
        | inl (b, thrown) ↦ absurd (ground arith)
        | inr (r', b, made, receives, same, _) ↦ (ground arith, ground arith)
      ]
