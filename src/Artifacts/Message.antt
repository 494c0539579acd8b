-- ===== src/Artifacts/Message.antt =====
-- The messages of buildstream/_artifactcache/pushreceive.py: PushMessageWriter, PushMessageReader.
-- Bytes are numbers. GLib's variants are a parameter.
use Prim.Native.Nat.{◌/◌, ◌%◌}
use bst_staging.Prelude.{
  ℕ, zero, suc, ◌+◌, ◌*◌, ◌≡◌, Bool, true, false, not, Option, none, some, List, [], ◌∷◌, ◌++◌,
  length, ltb, ◌==◌, if◌then◌else◌,
}

-- sys.byteorder
pub data ByteOrder : Type 0 where
  little big : ByteOrder

pub data CommandType : Type 0 where
  info update putobjects status done : CommandType

abbrev pub value : CommandType → ℕ
value info = 0
value update = 1
value putobjects = 2
value status = 3
value done = 4

-- `PushCommandType(n)`; `none` is a ValueError.
unfoldable pub command_type : ℕ → Option CommandType
command_type n =
    if n == 0
    then some info
    else if n == 1
    then some update
    else if n == 2
    then some putobjects
    else if n == 3
    then some status
    else if n == 4
    then some done
    else none

abbrev pub same_order : ByteOrder → ByteOrder → Bool
same_order little little = true
same_order big big = true
same_order _ _ = false

abbrev pub proto_version : ℕ
proto_version = 1

abbrev pub header_size : ℕ
header_size = 5

-- The characters 'l' and 'B'
abbrev pub msg_byteorder : ByteOrder → ℕ
msg_byteorder little = 108
msg_byteorder big = 66

unfoldable pub sys_byteorder : ℕ → Option ByteOrder
sys_byteorder c = if c == 108 then some little else if c == 66 then some big else none

-- `size.to_bytes(2, order)`; `none` is an OverflowError.
unfoldable pub size_to_bytes : ByteOrder → ℕ → Option (List ℕ)
size_to_bytes little n = if ltb n 65536 then some (n % 256 ∷ n / 256 ∷ []) else none
size_to_bytes big n = if ltb n 65536 then some (n / 256 ∷ n % 256 ∷ []) else none

-- `int.from_bytes(bytes, order)`, from the least byte and from the greatest
abbrev pub from_little : List ℕ → ℕ
from_little [] = 0
from_little (b ∷ bs) = b + 256 * from_little bs

abbrev pub from_big : (read : ℕ) → List ℕ → ℕ
from_big n [] = n
from_big n (b ∷ bs) = from_big (256 * n + b) bs

abbrev pub from_bytes : ByteOrder → List ℕ → ℕ
from_bytes little bs = from_little bs
from_bytes big bs = from_big 0 bs

unfoldable pub encode_header : ByteOrder → CommandType → (size : ℕ) → Option (List ℕ)
unfolding size_to_bytes
encode_header order c size = elim (size_to_bytes order size) [
  | none ↦ none
  | some bytes ↦ some (msg_byteorder order ∷ proto_version ∷ value c ∷ bytes)
]

-- What is raised while a message is read
pub data ReadError : Type 0 where
  wrong_header_size unknown_byteorder unsupported_version unknown_command : ReadError
  partial_message wrong_message_size no_reply unexpected_reply : ReadError

pub data Decoded : Type 0 where
  refused : ReadError → Decoded
  decoded : ByteOrder → CommandType → (size : ℕ) → Decoded

-- The fields of a header that has the right size
unfoldable pub decode_fields : List ℕ → Decoded
unfolding sys_byteorder command_type
decode_fields (o ∷ v ∷ c ∷ size) = elim (sys_byteorder o) [
  | none ↦ refused unknown_byteorder
  | some order ↦
      if not (v == proto_version) then refused unsupported_version else elim (command_type c) [
        | none ↦ refused unknown_command
        | some t ↦ decoded order t (from_bytes order size)
      ]
]
decode_fields _ = refused wrong_header_size

unfoldable pub decode_header : List ℕ → Decoded
unfolding decode_fields
decode_header header =
    if length header == header_size then decode_fields header else refused wrong_header_size

-- `file.read(n)` and what it leaves: fewer bytes only at the end of the stream
abbrev pub take : ℕ → List ℕ → List ℕ
take zero file = []
take (suc n) [] = []
take (suc n) (b ∷ file) = b ∷ take n file

abbrev pub drop : ℕ → List ℕ → List ℕ
drop zero file = file
drop (suc n) [] = []
drop (suc n) (b ∷ file) = drop n file

-- GLib.Variant on a machine with a byte order: `get_data_as_bytes`, `new_from_bytes`, `byteswap`
pub record Variants (Args : Type 0) : Type 0 where
  pub get_data : (host : ByteOrder) → Args → List ℕ
  pub new_from_bytes : (host : ByteOrder) → List ℕ → Args
  pub byteswap : Args → Args

-- What GLib documents: data is read back on a machine with the same byte order, and after a swap
-- on one with the other.
pub record IsSerialisation {Args : Type 0} (v : Variants Args) : Type 0 where
  pub same_host : (host : ByteOrder) (a : Args) → v.new_from_bytes host (v.get_data host a) ≡ a
  pub other_host :
      (host other : ByteOrder) (a : Args)
      → same_order host other ≡ false
      → v.byteswap (v.new_from_bytes other (v.get_data host a)) ≡ a

-- What a read ends with: the remote end quit, an exception, or a command and the rest of the stream
pub data Received (Args : Type 0) : Type 0 where
  quit : Received Args
  failed : ReadError → Received Args
  got : CommandType → Args → (rest : List ℕ) → Received Args

module _ {Args : Type 0} (v : Variants Args) where
  unfoldable pub encode_message : (host : ByteOrder) → CommandType → Args → Option (List ℕ)
  encode_message host c a = elim (encode_header host c (length (v.get_data host a))) [
    | none ↦ none
    | some header ↦ some (header ++ v.get_data host a)
  ]

  -- `none` is an Exception.
  unfoldable pub decode_message :
      (host : ByteOrder) → (message : List ℕ) → (size : ℕ) → (order : ByteOrder) → Option Args
  decode_message host message size order =
      let variant = v.new_from_bytes host message in
      if not (length message == size)
      then none
      else if same_order order host
      then some variant
      else some (v.byteswap variant)

  -- `read` behind the header
  unfoldable pub read_body : (host : ByteOrder) → Decoded → List ℕ → Received Args
  unfolding decode_message
  read_body host (refused e) file = failed e
  read_body host (decoded order c size) file =
      let msg = take size file in
      if not (length msg == size)
      then failed partial_message
      else elim (decode_message host msg size order) [
        | none ↦ failed wrong_message_size
        | some a ↦ got c a (drop size file)
      ]

  unfoldable pub read : (host : ByteOrder) → List ℕ → Received Args
  unfolding read_body decode_header
  read host file =
      let header = take header_size file in
      if length header == 0
      then quit
      else read_body host (decode_header header) (drop header_size file)

  -- `cmdtype in allowed`
  abbrev pub is_allowed : List CommandType → CommandType → Bool
  is_allowed [] c = false
  is_allowed (t ∷ ts) c = if value t == value c then true else is_allowed ts c

  unfoldable pub receive : (host : ByteOrder) → List CommandType → List ℕ → Received Args
  receive host allowed file = elim (read host file) [
    | quit ↦ failed no_reply
    | failed e ↦ failed e
    | got c a rest ↦ if is_allowed allowed c then got c a rest else failed unexpected_reply
  ]
