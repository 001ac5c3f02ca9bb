-- ===== src/Net/Messages.antt =====
-- network/message.cpp: the payloads of the protocol's messages. A parser's `false` is `none`.
-- The reserve calls in batches change no value and are left out.
pub mod RoundTrip
pub mod Limits
mod Tests
use coinbasechain.Base.{
  ℕ, zero, suc, ◌+◌, Bool, true, false, Option, none, some, List, [], ◌∷◌, ◌++◌, ltb, leb, ◌==◌,
  not, ◌||◌, if◌then◌else◌, length, take, drop,
}
use coinbasechain.Chain.Header.{BlockHeader, serialize, deserialize, header_size}
use coinbasechain.Net.Wire.{
  Buffer, Deserializer, new_deserializer, Read, write_uint32, write_uint64, write_varint,
  write_bytes, write_string, write_network_address, write_inventory_vector, read_uint32,
  read_uint64, read_varint, read_bytes, read_string, NetworkAddress, read_network_address,
  TimestampedAddress, read_timestamped_address, InventoryVector, read_inventory_vector,
}

-- protocol.hpp
abbrev pub max_subversion_length : ℕ
max_subversion_length = 256

abbrev pub max_addr_size : ℕ
max_addr_size = 1000

abbrev pub max_inv_size : ℕ
max_inv_size = 50000

abbrev pub max_locator_sz : ℕ
max_locator_sz = 101

abbrev pub max_headers_size : ℕ
max_headers_size = 2000

pub record VersionMessage : Type 0 where
  pub version : ℕ
  pub services : ℕ
  pub timestamp : ℕ
  pub addr_recv : NetworkAddress
  pub addr_from : NetworkAddress
  pub nonce : ℕ
  pub user_agent : List ℕ
  pub start_height : ℕ

unfoldable pub serialize_version : VersionMessage → List ℕ
unfolding write_uint32 write_uint64
serialize_version m =
    let s₁ = write_uint32 m.version [] in
    let s₂ = write_uint64 m.services s₁ in
    let s₃ = write_uint64 m.timestamp s₂ in
    let s₄ = write_network_address m.addr_recv s₃ in
    let s₅ = write_network_address m.addr_from s₄ in
    let s₆ = write_uint64 m.nonce s₅ in
    let s₇ = write_string m.user_agent s₆ in write_uint32 m.start_height s₇

unfoldable pub deserialize_version : List ℕ → Option VersionMessage
deserialize_version bytes =
    let (version, d₁) = read_uint32 (new_deserializer bytes) in
    let (services, d₂) = read_uint64 d₁ in
    let (timestamp, d₃) = read_uint64 d₂ in
    let (addr_recv, d₄) = read_network_address d₃ in
    let (addr_from, d₅) = read_network_address d₄ in
    let (nonce, d₆) = read_uint64 d₅ in
    let (user_agent, d₇) = read_string max_subversion_length d₆ in
    let (start_height, d₈) = read_uint32 d₇ in
    if d₈.error
    then none
    else some (record {
      version = version;
      services = services;
      timestamp = timestamp;
      addr_recv = addr_recv;
      addr_from = addr_from;
      nonce = nonce;
      user_agent = user_agent;
      start_height = start_height;
    })

-- VERACK and GETADDR have no payload.
unfoldable pub deserialize_empty : ℕ → Bool
deserialize_empty size = size == 0

-- PING and PONG.
unfoldable pub serialize_nonce : ℕ → List ℕ
unfolding write_uint64
serialize_nonce nonce = write_uint64 nonce []

unfoldable pub deserialize_nonce : List ℕ → Option ℕ
deserialize_nonce bytes =
    let (nonce, d) = read_uint64 (new_deserializer bytes) in if d.error then none else some nonce

-- The loop that reads `count` entries, each by a step that may give up.
module _ {A : Type 0} (step : Deserializer → Option (A × Deserializer)) where
  unfoldable pub read_loop : ℕ → Deserializer → Option (List A × Deserializer)
  read_loop zero d = some ([], d)
  read_loop (suc count) d = elim (step d) [
    | none ↦ none
    | some (x, d') ↦ elim (read_loop count d') [ none ↦ none | some (xs, d'') ↦ some (x ∷ xs, d'') ]
  ]

  -- The count, its limit, the loop, and the last check.
  unfoldable pub read_counted : ℕ → Deserializer → Option (List A)
  unfolding read_loop
  read_counted limit d =
      let (count, d') = read_varint d in
      if ltb limit count then none else elim (read_loop count d') [
        | none ↦ none
        | some (xs, d'') ↦ if d''.error then none else some xs
      ]

-- The loop that writes the entries, one behind the other.
module _ {A : Type 0} (write : A → Buffer → Buffer) where
  unfoldable pub write_all : List A → Buffer → Buffer
  write_all [] buf = buf
  write_all (x ∷ xs) buf = write_all xs (write x buf)

write_timestamped : TimestampedAddress → Buffer → Buffer
unfolding write_uint32
write_timestamped t buf = write_network_address t.address (write_uint32 t.timestamp buf)

unfoldable pub serialize_addr : List TimestampedAddress → List ℕ
unfolding write_all write_timestamped
serialize_addr addresses =
    write_all write_timestamped addresses (write_varint (length addresses) [])

addr_step : Deserializer → Option (TimestampedAddress × Deserializer)
addr_step d = let (a, d') = read_timestamped_address d in if d'.error then none else some (a, d')

unfoldable pub deserialize_addr : List ℕ → Option (List TimestampedAddress)
unfolding read_counted addr_step
deserialize_addr bytes = read_counted addr_step max_addr_size (new_deserializer bytes)

unfoldable pub serialize_inv : List InventoryVector → List ℕ
unfolding write_all
serialize_inv inventory =
    write_all write_inventory_vector inventory (write_varint (length inventory) [])

inv_step : Deserializer → Option (InventoryVector × Deserializer)
inv_step d = let (v, d') = read_inventory_vector d in if d'.error then none else some (v, d')

unfoldable pub deserialize_inv : List ℕ → Option (List InventoryVector)
unfolding read_counted inv_step
deserialize_inv bytes = read_counted inv_step max_inv_size (new_deserializer bytes)

pub record GetHeadersMessage : Type 0 where
  pub version : ℕ
  pub block_locator_hashes : List (List ℕ)
  pub hash_stop : List ℕ

unfoldable pub serialize_getheaders : GetHeadersMessage → List ℕ
unfolding write_uint32 write_all write_bytes
serialize_getheaders m = write_bytes m.hash_stop (
    write_all write_bytes m.block_locator_hashes
      (write_varint (length m.block_locator_hashes) (write_uint32 m.version [])))

locator_step : Deserializer → Option (List ℕ × Deserializer)
locator_step d =
    let (bytes, d') = read_bytes 32 d in if not (length bytes == 32) then none else some (bytes, d')

unfoldable pub deserialize_getheaders : List ℕ → Option GetHeadersMessage
unfolding read_loop locator_step
deserialize_getheaders bytes =
    let (version, d₁) = read_uint32 (new_deserializer bytes) in
    let (count, d₂) = read_varint d₁ in
    if ltb max_locator_sz count then none else elim (read_loop locator_step count d₂) [
      | none ↦ none
      | some (hashes, d₃) ↦
          let (stop, d₄) = read_bytes 32 d₃ in
          if not (length stop == 32)
          then none
          else if d₄.error
          then none
          else some (record { version = version; block_locator_hashes = hashes; hash_stop = stop })
    ]

write_header : BlockHeader → Buffer → Buffer
unfolding write_bytes
write_header h = write_bytes (serialize h)

unfoldable pub serialize_headers : List BlockHeader → List ℕ
unfolding write_all write_header
serialize_headers headers = write_all write_header headers (write_varint (length headers) [])

header_step : Deserializer → Option (BlockHeader × Deserializer)
header_step d =
    let (bytes, d') = read_bytes header_size d in
    if not (length bytes == header_size)
    then none
    else elim (deserialize bytes (length bytes)) [ none ↦ none | some h ↦ some (h, d') ]

unfoldable pub deserialize_headers : List ℕ → Option (List BlockHeader)
unfolding read_counted header_step
deserialize_headers bytes = read_counted header_step max_headers_size (new_deserializer bytes)
