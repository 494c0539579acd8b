-- ===== src/Artifacts/Examples.antt =====
-- The push messages at small inputs: tests, and the theorems applied.
use bst_staging.Prelude.{ℕ, ◌≡◌, refl, some, List, [], ◌∷◌, ◌++◌, arith, false}
use bst_staging.Artifacts.Message.{
  ByteOrder, little, big, update, status, Variants, IsSerialisation, same_order, failed, got,
  ReadError, unexpected_reply, encode_message, read, receive, encode_header,
}
use bst_staging.Artifacts.Framing.{read-encode_message}
use bst_staging.Prelude.{All, length, ◌⊎◌, ◌<◌, ◌≤◌, none}
use bst_staging.Artifacts.Bounds.{IsByte, encode_message_bounds}
use bst_staging.Artifacts.Truncation.{read_truncated}

-- Arguments that are one number below 65536, as two bytes in the order of the machine
abbrev toy_data : ByteOrder → ℕ × ℕ → List ℕ
toy_data little (high, low) = low ∷ high ∷ []
toy_data big (high, low) = high ∷ low ∷ []

abbrev toy_value : ByteOrder → List ℕ → ℕ × ℕ
toy_value little (low ∷ high ∷ []) = (high, low)
toy_value big (high ∷ low ∷ []) = (high, low)
toy_value _ _ = (0, 0)

abbrev toy : Variants (ℕ × ℕ)
toy = record { get_data = toy_data; new_from_bytes = toy_value; byteswap = λ a. (a.1, a.0) }

toy-IsSerialisation : IsSerialisation toy
toy-IsSerialisation = record { same_host = same; other_host = other }
  where
    same : (host : ByteOrder) (a : ℕ × ℕ) → toy_value host (toy_data host a) ≡ a
    same little (high, low) = refl
    same big (high, low) = refl

    other :
        (host reader : ByteOrder) (a : ℕ × ℕ)
        → same_order host reader ≡ false
        → toy.byteswap (toy_value reader (toy_data host a)) ≡ a
    other little big (high, low) h = refl
    other big little (high, low) h = refl
    other little little a h = cc
    other big big a h = cc

message_bytes : encode_message toy little update (1, 2) ≡ some (108 ∷ 1 ∷ 1 ∷ 2 ∷ 0 ∷ 2 ∷ 1 ∷ [])
unfolding encode_message encode_header
message_bytes = refl

other_machine : read toy big (108 ∷ 1 ∷ 1 ∷ 2 ∷ 0 ∷ 2 ∷ 1 ∷ 7 ∷ []) ≡ got update (1, 2) (7 ∷ [])
unfolding read
other_machine = refl

not_allowed :
    receive toy big (status ∷ []) (108 ∷ 1 ∷ 1 ∷ 2 ∷ 0 ∷ 2 ∷ 1 ∷ []) ≡ failed unexpected_reply
unfolding receive read
not_allowed = refl

read-encode_message_example :
    (msg : List ℕ) × (encode_message toy little update (1, 2) ≡ some msg)
    × ((rest : List ℕ) → read toy big (msg ++ rest) ≡ got update (1, 2) rest)
read-encode_message_example =
    read-encode_message toy toy-IsSerialisation little big update (1, 2) (omega arith)

read_truncated_example : (e : ReadError) × (read toy big (108 ∷ 1 ∷ 1 ∷ 2 ∷ 0 ∷ 2 ∷ []) ≡ failed e)
read_truncated_example =
    read_truncated toy little big update (1, 2) (108 ∷ 1 ∷ 1 ∷ 2 ∷ 0 ∷ 2 ∷ []) (1 ∷ [])
      (omega arith) message_bytes (omega arith) (omega arith)

encode_message_bounds_example :
    ((2 < 65536)
      × (message : List ℕ) × (encode_message toy little update (1, 2) ≡ some message)
      × All IsByte message
      × (length message ≡ 7)
      × (length message ≤ 65540))
    ⊎ ((65536 ≤ 2) × (encode_message toy little update (1, 2) ≡ none))
encode_message_bounds_example =
    encode_message_bounds toy little update (1, 2) (omega arith, (omega arith, tt))
