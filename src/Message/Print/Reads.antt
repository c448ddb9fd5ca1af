-- ===== src/Message/Print/Reads.antt =====
-- server/Message.hpp, `message_s::print`: which messages can be printed.
use distributed_computing_fr.Prelude.{
  ℕ, ◌+◌, ◌*◌, ◌≤◌, ◌<◌, ◌≡◌, ◌≢◌, refl, ◌∙◌, true, false, none, some, List, ◌++◌, length, arith,
  leb, u32_mod, Bool-cases, Option-cases, inl, inr, ◌⊎◌,
}
use distributed_computing_fr.Message.{
  Message, is_valid_message, is_valid_config, is_valid_config_resp, is_valid_data,
  config_num_blocks, get_data_size, sizeof_data, type_code, config, config_resp, data_input,
}
use distributed_computing_fr.Message.Bounds.{IsAllocated, valid_config-Accesses, valid-payload}
use distributed_computing_fr.Message.Print.Parts.{
  print_config-some, print_config_resp-some, print_data-some, print_config-uncounted,
  print_config-none,
}
use distributed_computing_fr.Message.Print.{
  print_header, print_config, print_config_resp, print_data, print_payload, print,
}

module _ (m : Message) (v : is_valid_message m ≡ true) (t : m.header.type ≡ type_code config) where
  uncounted_not_valid : config_num_blocks m ≡ none → is_valid_config m ≢ some true
  unfolding is_valid_config
  uncounted_not_valid e ok = ground (arith, v, t, e, ok)

  counted_valid :
      (n : ℕ)
      → config_num_blocks m ≡ some n
      → leb (12 + n * 12) m.header.payload_size ≡ true
      → is_valid_config m ≡ some true
  unfolding is_valid_config
  counted_valid n e fits = ground (arith, v, t, e, fits)

  counted_not_valid :
      (n : ℕ)
      → config_num_blocks m ≡ some n
      → leb (12 + n * 12) m.header.payload_size ≡ false
      → is_valid_config m ≢ some true
  unfolding is_valid_config
  counted_not_valid n e over ok = ground (arith, v, t, e, over, ok)

data_size-exact :
    (m : Message)
    → sizeof_data ≤ m.header.payload_size
    → m.header.payload_size < u32_mod
    → length m.payload ≡ m.header.payload_size
    → length m.payload ≡ sizeof_data + get_data_size m
unfolding get_data_size
data_size-exact m room small exact = omega (arith, exact)

config_resp_facts :
    (m : Message)
    → is_valid_config_resp m ≡ some true
    → (is_valid_message m ≡ true)
      × (m.header.type ≡ type_code config_resp)
      × (m.header.payload_size ≡ 1)
unfolding is_valid_config_resp
config_resp_facts m h = (ground (arith, h), ground (arith, h), ground (arith, h))

data_facts :
    (m : Message)
    → is_valid_data m ≡ true
    → (is_valid_message m ≡ true) × (m.header.type ≡ type_code data_input)
unfolding is_valid_data
data_facts m h = (ground (arith, h), ground (arith, h))

module _ (decimal : ℕ → List ℕ) (prefix : List ℕ) where
  print_of_body :
      (m : Message) (body : List ℕ)
      → print_payload decimal prefix m ≡ some body
      → print decimal prefix m ≡ some (print_header decimal prefix m ++ body)
  unfolding print
  print_of_body m body e = rw e refl

  print_of_none :
      (m : Message) → print_payload decimal prefix m ≡ none → print decimal prefix m ≡ none
  unfolding print
  print_of_none m e = rw e refl

  payload_of_config :
      (m : Message)
      → m.header.type ≡ type_code config
      → print_payload decimal prefix m ≡ print_config decimal prefix m
  unfolding print_payload
  payload_of_config m t = ground (arith, t)

  payload_of_config_resp :
      (m : Message)
      → m.header.type ≡ type_code config_resp
      → print_payload decimal prefix m ≡ print_config_resp decimal prefix m
  unfolding print_payload
  payload_of_config_resp m t = ground (arith, t)

  payload_of_data :
      (m : Message)
      → m.header.type ≡ type_code data_input
      → print_payload decimal prefix m ≡ print_data decimal prefix m
  unfolding print_payload
  payload_of_data m t = ground (arith, t)

  -- What printing a configuration and its validity test have to do with each other.
  abbrev pub IsPrinted : Message → Type 0
  IsPrinted m =
      ((is_valid_config m ≡ some true) × (text : List ℕ) × (print decimal prefix m ≡ some text))
      ⊎ ((is_valid_config m ≢ some true) × (print decimal prefix m ≡ none))

  -- Printing a valid message of the type of a configuration stays inside its allocation if the message
  -- passes `is_valid_config`, and leaves it if it does not.
  pub print-IsPrinted :
      (m : Message)
      → IsAllocated m
      → length m.payload + 8 < u32_mod
      → m.header.payload_size < u32_mod
      → is_valid_message m ≡ true
      → m.header.type ≡ type_code config
      → IsPrinted m
  print-IsPrinted m al small small' v t = elim (Option-cases (config_num_blocks m)) [
    | inl e ↦ inr (
      (λ ok. uncounted_not_valid m v t e ok),
      print_of_none m (payload_of_config m t ∙ print_config-uncounted decimal prefix m e),
    )
    | inr (n, e) ↦ elim (Bool-cases (leb (12 + n * 12) m.header.payload_size)) [
      | inl fits ↦
          let valid = counted_valid m v t n e fits in
          let (k, accesses) = valid_config-Accesses m al small small' valid in
          let (text, shown) =
            print_config-some decimal prefix m k accesses (omega (arith, small)) in
          inl (valid, _, print_of_body m text (payload_of_config m t ∙ shown))
      | inr over ↦
          let exact = valid-payload m al small small' v in
          inr (
            (λ ok. counted_not_valid m v t n e over ok),
            print_of_none m (
                payload_of_config m t
                ∙ print_config-none decimal prefix m n e (ground (arith, exact))),
          )
    ]
  ]

  -- A message that passes the test of a response, or that of data and has an identifier, is printed
  -- inside its allocation.
  print-tested :
      (m : Message)
      → IsAllocated m
      → length m.payload + 8 < u32_mod
      → m.header.payload_size < u32_mod
      → (is_valid_config_resp m ≡ some true)
        ⊎ ((is_valid_data m ≡ true) × (sizeof_data ≤ m.header.payload_size))
      → (text : List ℕ) × (print decimal prefix m ≡ some text)
  print-tested m al small small' (inl resp) =
      let (valid, typed, one) = config_resp_facts m resp in
      let exact = valid-payload m al small small' valid in
      let (text, shown) = print_config_resp-some decimal prefix m (omega (arith, exact, one)) in
      (
        print_header decimal prefix m ++ text,
        print_of_body m text (payload_of_config_resp m typed ∙ shown),
      )
  print-tested m al small small' (inr (is_data, room)) =
      let (valid, typed) = data_facts m is_data in
      let exact = valid-payload m al small small' valid in
      let (text, shown) =
        print_data-some decimal prefix m (data_size-exact m room small' exact)
          (omega (arith, small)) in
      (
        print_header decimal prefix m ++ text,
        print_of_body m text (payload_of_data m typed ∙ shown),
      )
