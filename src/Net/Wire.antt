-- ===== src/Net/Wire.antt =====
-- network/message.cpp: VarInt, MessageSerializer and MessageDeserializer.
-- The reader holds the bytes from data_ + position_ on; an int32_t is its bit pattern.
pub mod RoundTrip
pub mod Bounds
mod Tests
use coinbasechain.Base.{
  ℕ, zero, suc, ◌+◌, ◌-◌, ◌%◌, ◌^◌, Bool, true, false, Option, none, some, List, [], ◌∷◌, ◌++◌, ltb,
  leb, ◌==◌, not, ◌||◌, if◌then◌else◌, length, take, drop,
}
use coinbasechain.Base.Endian.{
  write_le16, write_le32, write_le64, read_le16, read_le32, read_le64, write_be16, read_be16,
  le_bytes, from_le,
}

-- protocol.hpp
abbrev pub max_size : ℕ
max_size = 0x02000000

unfoldable pub encoded_size : ℕ → ℕ
encoded_size v =
    if ltb v 0xfd then 1 else if leb v 0xffff then 3 else if leb v 0xffffffff then 5 else 9

unfoldable pub encode_varint : ℕ → List ℕ
unfolding write_le16 write_le32 write_le64
encode_varint v =
    if ltb v 0xfd
    then v ∷ []
    else if leb v 0xffff
    then 0xfd ∷ write_le16 v
    else if leb v 0xffffffff
    then 0xfe ∷ write_le32 v
    else 0xff ∷ write_le64 v

-- The value and the bytes consumed; `none` is the 0 of the source.
unfoldable pub decode_varint : List ℕ → Option (ℕ × ℕ)
unfolding read_le16 read_le32 read_le64
decode_varint [] = none
decode_varint (first ∷ buffer) =
    let available = length buffer + 1 in
    if ltb first 0xfd
    then some (first, 1)
    else if first == 0xfd
    then (if ltb available 3 then none else some (read_le16 buffer, 3))
    else if first == 0xfe
    then (if ltb available 5 then none else some (read_le32 buffer, 5))
    else (if ltb available 9 then none else some (read_le64 buffer, 9))

-- MessageSerializer: each write appends to buffer_.
abbrev pub Buffer : Type 0
Buffer = List ℕ

unfoldable pub write_uint8 : ℕ → Buffer → Buffer
write_uint8 v buf = buf ++ v ∷ []

unfoldable pub write_uint16 : ℕ → Buffer → Buffer
unfolding write_le16
write_uint16 v buf = buf ++ write_le16 v

unfoldable pub write_uint32 : ℕ → Buffer → Buffer
unfolding write_le32
write_uint32 v buf = buf ++ write_le32 v

unfoldable pub write_uint64 : ℕ → Buffer → Buffer
unfolding write_le64
write_uint64 v buf = buf ++ write_le64 v

unfoldable pub write_bool : Bool → Buffer → Buffer
unfolding write_uint8
write_bool b buf = write_uint8 (if b then 1 else 0) buf

unfoldable pub write_varint : ℕ → Buffer → Buffer
write_varint v buf = buf ++ encode_varint v

unfoldable pub write_bytes : List ℕ → Buffer → Buffer
write_bytes bytes buf = buf ++ bytes

unfoldable pub write_string : List ℕ → Buffer → Buffer
unfolding write_varint write_bytes
write_string str buf = write_bytes str (write_varint (length str) buf)

pub record NetworkAddress : Type 0 where
  pub services : ℕ
  pub ip : List ℕ
  pub port : ℕ

unfoldable pub write_network_address : NetworkAddress → Buffer → Buffer
unfolding write_uint64 write_bytes write_be16
write_network_address addr buf =
    write_bytes addr.ip (write_uint64 addr.services buf) ++ write_be16 addr.port

pub record InventoryVector : Type 0 where
  pub kind : ℕ
  pub hash : List ℕ

unfoldable pub write_inventory_vector : InventoryVector → Buffer → Buffer
unfolding write_uint32 write_bytes
write_inventory_vector inv buf = write_bytes inv.hash (write_uint32 inv.kind buf)

pub record Deserializer : Type 0 where
  pub rest : List ℕ
  pub position : ℕ
  pub error : Bool

unfoldable pub new_deserializer : List ℕ → Deserializer
new_deserializer bytes = record { rest = bytes; position = 0; error = false }

abbrev pub bytes_remaining : Deserializer → ℕ
bytes_remaining d = length d.rest

unfoldable pub check_available : ℕ → Deserializer → Deserializer
check_available bytes d = if ltb (bytes_remaining d) bytes then record d { error = true } else d

abbrev pub advance : ℕ → Deserializer → Deserializer
advance n d = record d { rest = drop n d.rest; position = d.position + n }

abbrev pub Read : Type 0 → Type 0
Read A = Deserializer → A × Deserializer

-- What the fixed-size reads share: check, give 0 on an error, or read and move on.
unfoldable pub read_fixed : ℕ → (List ℕ → ℕ) → Read ℕ
unfolding check_available
read_fixed size read d =
    let checked = check_available size d in
    if checked.error then (0, checked) else (read checked.rest, advance size checked)

unfoldable pub read_uint8 : Read ℕ
unfolding read_fixed
read_uint8 = read_fixed 1 (λ bytes. from_le (take 1 bytes))

unfoldable pub read_uint16 : Read ℕ
unfolding read_fixed read_le16
read_uint16 = read_fixed 2 read_le16

unfoldable pub read_uint32 : Read ℕ
unfolding read_fixed read_le32
read_uint32 = read_fixed 4 read_le32

unfoldable pub read_uint64 : Read ℕ
unfolding read_fixed read_le64
read_uint64 = read_fixed 8 read_le64

unfoldable pub read_bool : Read Bool
unfolding read_uint8
read_bool d = let (v, d') = read_uint8 d in (not (v == 0), d')

unfoldable pub read_varint : Read ℕ
unfolding check_available
read_varint d =
    let checked = check_available 1 d in
    let failed = record checked { error = true } in
    if checked.error then (0, checked) else elim (decode_varint checked.rest) [
      | none ↦ (0, failed)
      | some (v, consumed) ↦ if ltb max_size v then (0, failed) else (v, advance consumed checked)
    ]

unfoldable pub read_bytes : ℕ → Read (List ℕ)
unfolding check_available
read_bytes count d =
    let checked = check_available count d in
    if checked.error then ([], checked) else (take count checked.rest, advance count checked)

unfoldable pub read_string : ℕ → Read (List ℕ)
read_string max_length d =
    let (len, read) = read_varint d in
    if read.error || ltb max_length len || ltb (bytes_remaining read) len
    then ([], record read { error = true })
    else (take len read.rest, advance len read)

abbrev pub no_ip : List ℕ
no_ip = 0 ∷ 0 ∷ 0 ∷ 0 ∷ 0 ∷ 0 ∷ 0 ∷ 0 ∷ 0 ∷ 0 ∷ 0 ∷ 0 ∷ 0 ∷ 0 ∷ 0 ∷ 0 ∷ []

-- An error part of the way leaves the fields that were not reached at zero.
read_port : ℕ → List ℕ → Read NetworkAddress
unfolding check_available read_be16
read_port services ip d =
    let checked = check_available 2 d in
    if checked.error
    then (record { services = services; ip = ip; port = 0 }, checked)
    else (record { services = services; ip = ip; port = read_be16 checked.rest }, advance 2 checked)

read_ip : ℕ → Read NetworkAddress
unfolding check_available
read_ip services d =
    let checked = check_available 16 d in
    if checked.error
    then (record { services = services; ip = no_ip; port = 0 }, checked)
    else read_port services (take 16 checked.rest) (advance 16 checked)

unfoldable pub read_network_address : Read NetworkAddress
unfolding read_ip read_port
read_network_address d = let (services, d₁) = read_uint64 d in read_ip services d₁

pub record TimestampedAddress : Type 0 where
  pub timestamp : ℕ
  pub address : NetworkAddress

unfoldable pub read_timestamped_address : Read TimestampedAddress
read_timestamped_address d =
    let (timestamp, d₁) = read_uint32 d in
    let (address, d₂) = read_network_address d₁ in
    (record { timestamp = timestamp; address = address }, d₂)

abbrev pub no_hash : List ℕ
no_hash = no_ip ++ no_ip

unfoldable pub read_inventory_vector : Read InventoryVector
unfolding check_available
read_inventory_vector d =
    let (kind, d₁) = read_uint32 d in
    let checked = check_available 32 d₁ in
    if checked.error
    then (record { kind = kind; hash = no_hash }, checked)
    else (record { kind = kind; hash = take 32 checked.rest }, advance 32 checked)
