-- ===== src/Artifacts/Framing.antt =====
-- What is written as a message is read as that message, on a machine of either byte order.
use Prim.Native.Nat.{◌/◌, ◌%◌}
use bst_staging.Prelude.{
  ℕ, ◌<◌, ◌≤◌, ◌≡◌, refl, ap, ◌∙◌, true, none, some, List, [], ◌∷◌, ◌++◌, length, ◌==◌, arith,
}
use bst_staging.Artifacts.Message.{
  ByteOrder, little, big, CommandType, info, update, putobjects, status, done, value, command_type,
  proto_version, header_size, msg_byteorder, sys_byteorder, size_to_bytes, from_bytes,
  encode_header, decoded, decode_fields, decode_header, take, drop, Variants, IsSerialisation, got,
  encode_message, decode_message, read_body, read,
}

command_type-value : (c : CommandType) → command_type (value c) ≡ some c
unfolding command_type
command_type-value info = refl
command_type-value update = refl
command_type-value putobjects = refl
command_type-value status = refl
command_type-value done = refl

sys_byteorder-msg_byteorder : (o : ByteOrder) → sys_byteorder (msg_byteorder o) ≡ some o
unfolding sys_byteorder
sys_byteorder-msg_byteorder little = refl
sys_byteorder-msg_byteorder big = refl

-- A size that fits in 16 bits is encoded as two bytes that are read as that size, in either order.
size_to_bytes-fits :
    (o : ByteOrder) (n : ℕ)
    → n < 65536
    → (bytes : List ℕ) × (size_to_bytes o n ≡ some bytes)
      × (from_bytes o bytes ≡ n)
      × (length bytes ≡ 2)
unfolding size_to_bytes
size_to_bytes-fits little n h = (n % 256 ∷ n / 256 ∷ [], ground arith, omega arith, refl)
size_to_bytes-fits big n h = (n / 256 ∷ n % 256 ∷ [], ground arith, omega arith, refl)

pub size_to_bytes-overflows : (o : ByteOrder) (n : ℕ) → 65536 ≤ n → size_to_bytes o n ≡ none
unfolding size_to_bytes
size_to_bytes-overflows little n h = ground arith
size_to_bytes-overflows big n h = ground arith

-- The header of a message whose size fits is decoded as its fields.
pub encode_header-fits :
    (o : ByteOrder) (c : CommandType) (n : ℕ)
    → n < 65536
    → (h : List ℕ) × (encode_header o c n ≡ some h)
      × (decode_header h ≡ decoded o c n)
      × (length h ≡ header_size)
unfolding encode_header decode_header decode_fields
encode_header-fits o c n fits =
    let (bytes, made, same, two) = size_to_bytes-fits o n fits in
    (
      msg_byteorder o ∷ proto_version ∷ value c ∷ bytes,
      ground (arith, made),
      ground (arith, two, sys_byteorder-msg_byteorder o, command_type-value c, same),
      omega (arith, two),
    )

pub take-append : (xs ys : List ℕ) → take (length xs) (xs ++ ys) ≡ xs
take-append [] ys = refl
take-append (x ∷ xs) ys = ap (λ l. x ∷ l) (take-append xs ys)

pub drop-append : (xs ys : List ℕ) → drop (length xs) (xs ++ ys) ≡ ys
drop-append [] ys = refl
drop-append (x ∷ xs) ys = drop-append xs ys

pub append_assoc : (xs ys zs : List ℕ) → (xs ++ ys) ++ zs ≡ xs ++ (ys ++ zs)
append_assoc [] ys zs = refl
append_assoc (x ∷ xs) ys zs = ap (λ l. x ∷ l) (append_assoc xs ys zs)

pub ==-refl : (n : ℕ) → (n == n) ≡ true
==-refl n = ground arith

module _ {Args : Type 0} (v : Variants Args) where
  decode_message-get_data :
      IsSerialisation v
      → (writer reader : ByteOrder) (a : Args)
      → decode_message v reader (v.get_data writer a) (length (v.get_data writer a)) writer ≡ some a
  unfolding decode_message
  decode_message-get_data laws little little a =
      rw (==-refl (length (v.get_data little a)), laws.same_host little a)
  decode_message-get_data laws big big a =
      rw (==-refl (length (v.get_data big a)), laws.same_host big a)
  decode_message-get_data laws little big a =
      rw (==-refl (length (v.get_data little a)), laws.other_host little big a refl)
  decode_message-get_data laws big little a =
      rw (==-refl (length (v.get_data big a)), laws.other_host big little a refl)

  pub read-header :
      (reader : ByteOrder) (header file : List ℕ)
      → length header ≡ header_size
      → read v reader (header ++ file) ≡ read_body v reader (decode_header header) file
  unfolding read
  read-header reader header file h = rw (← h, take-append header file, drop-append header file, h)

  read_body-get_data :
      IsSerialisation v
      → (writer reader : ByteOrder) (c : CommandType) (a : Args) (rest : List ℕ)
      → read_body v reader
          (decoded writer c (length (v.get_data writer a)))
          (v.get_data writer a ++ rest)
        ≡ got c a rest
  unfolding read_body
  read_body-get_data laws writer reader c a rest = ground (
    arith,
    take-append (v.get_data writer a) rest,
    drop-append (v.get_data writer a) rest,
    decode_message-get_data laws writer reader a,
  )

  -- The message for arguments that fit is its header and the data.
  pub encode_message-fits :
      (writer : ByteOrder) (c : CommandType) (a : Args)
      → length (v.get_data writer a) < 65536
      → (h : List ℕ) × (encode_message v writer c a ≡ some (h ++ v.get_data writer a))
        × (decode_header h ≡ decoded writer c (length (v.get_data writer a)))
        × (length h ≡ header_size)
  unfolding encode_message
  encode_message-fits writer c a fits =
      let (h, made, same, size) = encode_header-fits writer c (length (v.get_data writer a)) fits in
      (h, ground (arith, made), same, size)

  -- A command whose arguments take less than 65536 bytes is encoded, and what is encoded is read as
  -- that command and these arguments on a machine of either byte order, whatever follows in the
  -- stream, which is left for the next read.
  pub read-encode_message :
      (laws : IsSerialisation v) (writer reader : ByteOrder) (c : CommandType) (a : Args)
      → length (v.get_data writer a) < 65536
      → (msg : List ℕ) × (encode_message v writer c a ≡ some msg)
        × ((rest : List ℕ) → read v reader (msg ++ rest) ≡ got c a rest)
  read-encode_message laws writer reader c a fits =
      let (h, made, same, size) = encode_message-fits writer c a fits in
      let bytes = v.get_data writer a in
      (
        h ++ bytes,
        made,
        λ rest.
            ap (read v reader) (append_assoc h bytes rest)
            ∙ read-header reader h (bytes ++ rest) size
            ∙ ap (λ d. read_body v reader d (bytes ++ rest)) same
            ∙ read_body-get_data laws writer reader c a rest,
      )

  -- Larger arguments are refused when they are encoded.
  pub encode_message-overflows :
      (writer : ByteOrder) (c : CommandType) (a : Args)
      → 65536 ≤ length (v.get_data writer a)
      → encode_message v writer c a ≡ none
  unfolding encode_message encode_header
  encode_message-overflows writer c a h =
      ground (arith, size_to_bytes-overflows writer (length (v.get_data writer a)) h)
