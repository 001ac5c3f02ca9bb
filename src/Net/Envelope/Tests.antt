-- ===== src/Net/Envelope/Tests.antt =====
-- Message headers on concrete bytes.
use coinbasechain.Base.{
  take, ℕ, ◌≡◌, refl, none, some, List, [], ◌∷◌, ◌++◌, length, replicate, arith,
}
use coinbasechain.Base.Endian.{read_le32}
use coinbasechain.Net.Envelope.{
  MessageHeader, create_header, serialize_header, deserialize_header, get_command, is_valid_command,
}
use coinbasechain.Net.Envelope.Commands.{deserialize_header-create_header}

abbrev constant_hash : List ℕ → List ℕ
constant_hash bytes = replicate 32 6

abbrev ping : List ℕ
ping = 112 ∷ 105 ∷ 110 ∷ 103 ∷ []

abbrev payload : List ℕ
payload = replicate 8 1

deserialize_header-create_header_example :
    let h = create_header constant_hash 1431193923 ping payload in
    (deserialize_header (serialize_header h) ≡ some h)
    × (get_command h.command ≡ ping)
    × (h.length ≡ length payload)
    × (h.checksum ≡ take 4 (constant_hash (constant_hash payload)))
deserialize_header-create_header_example =
    deserialize_header-create_header constant_hash 1431193923 ping payload (omega arith)
      (
        (omega arith, omega arith),
        (
          (omega arith, omega arith),
          ((omega arith, omega arith), ((omega arith, omega arith), tt)),
        ),
      )
      (omega arith) (omega arith) refl

abbrev ping_header : MessageHeader
ping_header = record {
  magic = 1;
  command = ping ++ replicate 8 0;
  length = 8;
  checksum = replicate 4 6;
}

abbrev ping_bytes : List ℕ
ping_bytes =
    (1 ∷ 0 ∷ 0 ∷ 0 ∷ []) ++ ((ping ++ replicate 8 0) ++ ((8 ∷ 0 ∷ 0 ∷ 0 ∷ []) ++ replicate 4 6))

ping_bytes-parsed : deserialize_header ping_bytes ≡ some ping_header
unfolding deserialize_header is_valid_command read_le32
ping_bytes-parsed = refl

unterminated_command : deserialize_header (replicate 24 65) ≡ none
unfolding deserialize_header is_valid_command
unterminated_command = refl
