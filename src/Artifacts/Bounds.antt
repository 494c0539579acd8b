-- ===== src/Artifacts/Bounds.antt =====
-- The bytes of a message that is written.
use Prim.Native.Nat.{◌/◌, ◌%◌}
use bst_staging.Prelude.{
  ℕ, ◌+◌, ◌<◌, ◌≤◌, ◌≡◌, refl, none, some, List, [], ◌∷◌, ◌++◌, length, length-append, All,
  All-append, arith, ltb, Bool-cases, inl, inr, ◌⊎◌,
}
use bst_staging.Artifacts.Message.{
  ByteOrder, little, big, CommandType, info, update, putobjects, status, done, value, proto_version,
  msg_byteorder, size_to_bytes, encode_header, Variants, encode_message,
}
use bst_staging.Artifacts.Framing.{size_to_bytes-overflows}

abbrev pub IsByte : ℕ → Type 0
IsByte b = b < 256

size_to_bytes-bounds :
    (o : ByteOrder) (n : ℕ)
    → n < 65536
    → (bytes : List ℕ) × (size_to_bytes o n ≡ some bytes) × All IsByte bytes × (length bytes ≡ 2)
unfolding size_to_bytes
size_to_bytes-bounds little n h =
    (n % 256 ∷ n / 256 ∷ [], ground arith, (omega arith, (omega arith, tt)), refl)
size_to_bytes-bounds big n h =
    (n / 256 ∷ n % 256 ∷ [], ground arith, (omega arith, (omega arith, tt)), refl)

order-IsByte : (o : ByteOrder) → IsByte (msg_byteorder o)
order-IsByte little = omega arith
order-IsByte big = omega arith

value-IsByte : (c : CommandType) → IsByte (value c)
value-IsByte info = omega arith
value-IsByte update = omega arith
value-IsByte putobjects = omega arith
value-IsByte status = omega arith
value-IsByte done = omega arith

-- A command whose arguments are bytes is written as bytes, five more than its arguments and no more
-- than 65540 in all, or not at all, and the latter just if its arguments take 65536 bytes or more.
pub encode_message_bounds :
    {Args : Type 0} (v : Variants Args) (host : ByteOrder) (c : CommandType) (a : Args)
    → All IsByte (v.get_data host a)
    → ((length (v.get_data host a) < 65536)
        × (message : List ℕ) × (encode_message v host c a ≡ some message)
        × All IsByte message
        × (length message ≡ 5 + length (v.get_data host a))
        × (length message ≤ 65540))
      ⊎ ((65536 ≤ length (v.get_data host a)) × (encode_message v host c a ≡ none))
unfolding encode_message encode_header
encode_message_bounds v host c a bytes =
    let data_bytes = v.get_data host a in
    elim (Bool-cases (ltb (length data_bytes) 65536)) [
      | inl fits ↦
          let low : length data_bytes < 65536 = ground arith in
          let (size, made, small, two) = size_to_bytes-bounds host (length data_bytes) low in
          let header = msg_byteorder host ∷ proto_version ∷ value c ∷ size in
          inl (
            low,
            header ++ data_bytes,
            ground (arith, made),
            All-append IsByte header data_bytes
                (order-IsByte host, (omega arith, (value-IsByte c, small))) bytes,
            omega (arith, length-append header data_bytes, two),
            omega (arith, length-append header data_bytes, two),
          )
      | inr long ↦
          let high : 65536 ≤ length data_bytes = ground arith in
          inr (high, ground (arith, size_to_bytes-overflows host (length data_bytes) high))
    ]
