-- ===== src/User/Protocol/Actions.antt =====
-- server/User_Queue.hpp, the tests of `_main_loop`: what a message does, and exactly when they have no
-- defined outcome.
use distributed_computing_fr.Prelude.{
  ℕ, ◌<◌, ◌≤◌, ◌≡◌, ◌≢◌, ◌↔◌, refl, ap, ◌∙◌, Bool, true, false, none, some, length, arith, ◌==◌,
  if◌then◌else◌, Bool-cases, Option-cases, inl, inr, ◌⊎◌, ltb, read32-some,
}
use distributed_computing_fr.Message.{
  Message, is_valid_message, is_valid_data, is_valid_data_for, is_valid_config, config_input_size,
  type_code, config, data_input, sizeof_config,
}
use distributed_computing_fr.Message.Bounds.{is_valid_config-short}
use distributed_computing_fr.User.Protocol.{Action, dispatch, reconfigure, reject, main_action}

-- The messages on which the tests read outside the message or divide by zero.
abbrev pub IsUnsafe : Message → ℕ → Type 0
IsUnsafe m input_size =
    ((m.header.type ≡ type_code data_input) × (input_size ≡ 0))
    ⊎ ((m.header.type ≡ type_code config) × (length m.payload < sizeof_config))

valid_data-other : (m : Message) → m.header.type ≢ type_code data_input → is_valid_data m ≡ false
unfolding is_valid_data
valid_data-other m h = ground arith

valid_data-data :
    (m : Message)
    → is_valid_message m ≡ true
    → m.header.type ≡ type_code data_input
    → is_valid_data m ≡ true
unfolding is_valid_data
valid_data-data m v h = ground arith

valid_config-other :
    (m : Message) → m.header.type ≢ type_code config → is_valid_config m ≡ some false
unfolding is_valid_config
valid_config-other m h = ground arith

valid_config-long :
    (m : Message) → sizeof_config ≤ length m.payload → (b : Bool) × (is_valid_config m ≡ some b)
unfolding is_valid_config
valid_config-long m h =
    let (n, counted) = read32-some m.payload 8 (omega arith) in
    elim (Option-cases (is_valid_config m)) [
      | inl bad ↦ absurd (ground (arith, counted))
      | inr (b, e) ↦ (b, e)
    ]

valid_data-zero : (m : Message) → is_valid_data m ≡ true → is_valid_data_for m 0 ≡ none
unfolding is_valid_data_for
valid_data-zero m v = rw v refl

valid_data_for-some :
    (m : Message) (size : ℕ) → size ≢ 0 → (b : Bool) × (is_valid_data_for m size ≡ some b)
unfolding is_valid_data_for
valid_data_for-some m size h = elim (Option-cases (is_valid_data_for m size)) [
  | inl bad ↦ absurd (ground arith)
  | inr (b, e) ↦ (b, e)
]

valid_data_for-other :
    (m : Message) (size : ℕ) → is_valid_data m ≡ false → is_valid_data_for m size ≡ some false
unfolding is_valid_data_for
valid_data_for-other m size h = rw h refl

module _ (cfg m : Message) (size : ℕ) (read : config_input_size cfg ≡ some size) where
  -- The outcome, from those of the two tests.
  action-undefined : is_valid_data_for m size ≡ none → main_action cfg m ≡ none
  unfolding main_action
  action-undefined e = rw (read, e) refl

  action-dispatch : is_valid_data_for m size ≡ some true → main_action cfg m ≡ some dispatch
  unfolding main_action
  action-dispatch e = rw (read, e) refl

  action-config_undefined :
      is_valid_data_for m size ≡ some false → is_valid_config m ≡ none → main_action cfg m ≡ none
  unfolding main_action
  action-config_undefined e f = rw (read, e) (rw f refl)

  action-config :
      (b : Bool)
      → is_valid_data_for m size ≡ some false
      → is_valid_config m ≡ some b
      → main_action cfg m ≡ some (if b then reconfigure else reject)
  unfolding main_action
  action-config b e f = rw (read, e) (rw f refl)

  some_action : (a : Action) → main_action cfg m ≡ some a → main_action cfg m ≢ none
  some_action a e e' = cc

  data_action : (t : m.header.type ≡ type_code data_input) → size ≢ 0 → main_action cfg m ≢ none
  data_action t h = let (b, tested) = valid_data_for-some m size h in go b tested
    where
      go : (b : Bool) → is_valid_data_for m size ≡ some b → main_action cfg m ≢ none
      go true tested = some_action dispatch (action-dispatch tested)
      go false tested =
          some_action reject
            (action-config false tested (valid_config-other m (λ c. omega (arith, c, t))))

  config_action :
      m.header.type ≢ type_code data_input
      → sizeof_config ≤ length m.payload
      → main_action cfg m ≢ none
  config_action other long =
      let (b, tested) = valid_config-long m long in
      some_action _
        (action-config b (valid_data_for-other m size (valid_data-other m other)) tested)

  -- On a valid message of a user the tests of the main loop have no defined outcome exactly if it is
  -- a data message and the input size is zero, which they divide by, or a configuration of less than
  -- twelve bytes, whose block count they read outside of it.
  main_action-undefined : is_valid_message m ≡ true → (main_action cfg m ≡ none) ↔ IsUnsafe m size
  main_action-undefined v = elim (Bool-cases (m.header.type == 3)) [
    | inl is_data ↦
        let t : m.header.type ≡ 3 = ground (arith, is_data) in
        elim (Bool-cases (size == 0)) [
          | inl empty ↦
              let z : size ≡ 0 = ground (arith, empty) in
              (
                (λ _. inl (t, z)),
                (λ _.
                    action-undefined
                      (ap (is_valid_data_for m) z ∙ valid_data-zero m (valid_data-data m v t))),
              )
          | inr sized ↦
              let h : size ≢ 0 = λ z. absurd (ground (arith, sized, z)) in
              (
                (λ e. absurd (data_action t h e)),
                (λ u. elim u [
                  | inl (t', z) ↦ absurd (h z)
                  | inr (c, short) ↦ absurd (omega (arith, t, c))
                ]),
              )
        ]
    | inr no_data ↦
        let other : m.header.type ≢ 3 = λ t. absurd (ground (arith, no_data, t)) in
        let tested = valid_data_for-other m size (valid_data-other m other) in
        elim (Bool-cases (m.header.type == 1)) [
          | inl is_config ↦
              let c : m.header.type ≡ 1 = ground (arith, is_config) in
              elim (Bool-cases (ltb (length m.payload) 12)) [
                | inl short ↦
                    let few : length m.payload < 12 = ground (arith, short) in
                    (
                      (λ _. inr (c, few)),
                      (λ _. action-config_undefined tested (is_valid_config-short m v c few)),
                    )
                | inr long ↦
                    let many : 12 ≤ length m.payload = ground (arith, long) in
                    (
                      (λ e. absurd (config_action other many e)),
                      (λ u. elim u [
                        | inl (t', z) ↦ absurd (other t')
                        | inr (c', few) ↦ absurd (omega (arith, many, few))
                      ]),
                    )
              ]
          | inr no_config ↦
              let other' : m.header.type ≢ 1 = λ c. absurd (ground (arith, no_config, c)) in
              (
                (λ e. absurd (
                    some_action reject (action-config false tested (valid_config-other m other'))
                      e)),
                (λ u. elim u [
                  | inl (t', z) ↦ absurd (other t')
                  | inr (c', few) ↦ absurd (other' c')
                ]),
              )
        ]
  ]
