-- ===== src/Artifacts/Truncation.antt =====
-- A message that is cut off is never read as a message.
use bst_staging.Prelude.{
  ℕ, zero, suc, ◌<◌, ◌≤◌, ◌≡◌, refl, ap, ◌∙◌, some, List, [], ◌∷◌, ◌++◌, length, arith,
  length-append, inl, inr, ltb, Bool-cases,
}
use bst_staging.Artifacts.Message.{
  ByteOrder, CommandType, header_size, refused, decoded, decode_header, take, Variants, failed,
  encode_message, read_body, read, ReadError, partial_message, wrong_header_size,
}
use bst_staging.Artifacts.Framing.{encode_message-fits, read-header}

take-all : (n : ℕ) (xs : List ℕ) → length xs ≤ n → take n xs ≡ xs
take-all zero [] h = refl
take-all (suc n) [] h = refl
take-all (suc n) (x ∷ xs) h = ap (λ l. x ∷ l) (take-all n xs (omega arith))
take-all zero (x ∷ xs) h = absurd (omega arith)

length-take_short : (n : ℕ) (xs : List ℕ) → length xs < n → length (take n xs) ≡ length xs
length-take_short n xs h = ap length (take-all n xs (omega arith))

-- A prefix of a list at least as long as another prefix of it goes on from there.
prefix-split :
    (h ws xs ys : List ℕ)
    → h ++ ws ≡ xs ++ ys
    → length h ≤ length xs
    → (mid : List ℕ) × (xs ≡ h ++ mid) × (ws ≡ mid ++ ys)
prefix-split [] ws xs ys e le = (xs, refl, e)
prefix-split (k ∷ h) ws (x ∷ xs) ys e le =
    let tails : h ++ ws ≡ xs ++ ys = cc in
    let le' : length h ≤ length xs = omega arith in
    let (mid, at, rest) = prefix-split h ws xs ys tails le' in (mid, cc, rest)
prefix-split (k ∷ h) ws [] ys e le = absurd (omega arith)

decode_header-short :
    (xs : List ℕ) → length xs < header_size → decode_header xs ≡ refused wrong_header_size
unfolding decode_header
decode_header-short xs h = ground arith

module _ {Args : Type 0} (v : Variants Args) where
  read_body-short :
      (reader : ByteOrder) (order : ByteOrder) (c : CommandType) (n : ℕ) (file : List ℕ)
      → length file < n
      → read_body v reader (decoded order c n) file ≡ failed partial_message
  unfolding read_body
  read_body-short reader order c n file h = ground (arith, length-take_short n file h)

  read-short_header :
      (reader : ByteOrder) (file : List ℕ)
      → 0 < length file
      → length file < header_size
      → read v reader file ≡ failed wrong_header_size
  unfolding read read_body
  read-short_header reader file some_byte short = ground (
    arith,
    length-take_short header_size file short,
    take-all header_size file (omega arith),
    decode_header-short file short,
  )

  -- A stream that ends within a message, behind its first byte, is refused, whichever byte order
  -- the machines have.
  pub read_truncated :
      (writer reader : ByteOrder) (c : CommandType) (a : Args) (xs ys : List ℕ)
      → length (v.get_data writer a) < 65536
      → encode_message v writer c a ≡ some (xs ++ ys)
      → 0 < length ys
      → 0 < length xs
      → (e : ReadError) × (read v reader xs ≡ failed e)
  read_truncated writer reader c a xs ys fits made cut some_byte =
      let (h, whole, same, size) = encode_message-fits v writer c a fits in
      elim (Bool-cases (ltb (length xs) header_size)) [
        | inl short ↦ (wrong_header_size, read-short_header reader xs some_byte (ground arith))
        | inr long ↦
            let le : length h ≤ length xs = ground arith in
            let joined : h ++ v.get_data writer a ≡ xs ++ ys = cc in
            let (mid, at, rest) = prefix-split h (v.get_data writer a) xs ys joined le in
            (
              partial_message,
              ap (read v reader) at
                  ∙ read-header v reader h mid size
                  ∙ ap (λ d. read_body v reader d mid) same
                  ∙ read_body-short reader writer c (length (v.get_data writer a)) mid
                      (omega (arith, ap length rest, length-append mid ys)),
            )
      ]
