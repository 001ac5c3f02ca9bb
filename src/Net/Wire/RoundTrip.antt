-- ===== src/Net/Wire/RoundTrip.antt =====
-- Each value that is written is read back, with any bytes behind it.
use mathlib.Core.List.{append_assoc}
use native.Mathlib.Nat.{add_assoc}
use coinbasechain.Base.{
  ℕ, ◌+◌, ◌<◌, ◌≤◌, ◌^◌, ◌≡◌, refl, false, some, List, ◌++◌, ltb, length, arith, length-append,
  take-append, drop-append, take_exact, drop_exact,
}
use coinbasechain.Base.Endian.{
  write_le16, write_le32, write_le64, read_le16, read_le32, read_le64, write_be16, read_be16,
  le_bytes, from_le-le_bytes,
}
use coinbasechain.Net.Wire.{
  max_size, encoded_size, encode_varint, decode_varint, Deserializer, check_available, read_fixed,
  Read, read_uint16, read_uint32, read_uint64, read_varint, read_bytes, read_string, NetworkAddress,
  read_network_address, TimestampedAddress, read_timestamped_address, InventoryVector,
  read_inventory_vector, read_ip, read_port, Buffer, write_network_address, write_inventory_vector,
}

-- A reader without an error, in front of some bytes.
abbrev pub at : List ℕ → ℕ → Deserializer
at rest pos = record { rest = rest; position = pos; error = false }

-- The reader finds the value in these bytes, and stops behind them.
abbrev pub Reads : {A : Type 0} → Read A → A → List ℕ → Type 0
Reads read x bytes =
    (rest : List ℕ) (pos : ℕ) → read (at (bytes ++ rest) pos) ≡ (x, at rest (pos + length bytes))

check_available_passes :
    (n : ℕ) (rest : List ℕ) (pos : ℕ)
    → n ≤ length rest
    → check_available n (at rest pos) ≡ at rest pos
unfolding check_available
check_available_passes n rest pos h = ground arith

read_fixed-Reads :
    (size v : ℕ) (read : List ℕ → ℕ) (bytes : List ℕ)
    → length bytes ≡ size
    → ((rest : List ℕ) → read (bytes ++ rest) ≡ v)
    → Reads (read_fixed size read) v bytes
unfolding read_fixed
read_fixed-Reads size v read bytes e h rest pos = rw (
  check_available_passes size (bytes ++ rest) pos (omega (arith, length-append {0} bytes rest)),
  h rest,
  drop_exact size bytes rest e,
  e,
)

pub read_uint16-Reads : (v : ℕ) → v < 2 ^ 16 → Reads read_uint16 v (write_le16 v)
unfolding read_uint16 write_le16 read_le16
read_uint16-Reads v h =
    read_fixed-Reads 2 v read_le16 (le_bytes 2 v) refl (λ rest. from_le-le_bytes 2 v h)

pub read_uint32-Reads : (v : ℕ) → v < 2 ^ 32 → Reads read_uint32 v (write_le32 v)
unfolding read_uint32 write_le32 read_le32
read_uint32-Reads v h =
    read_fixed-Reads 4 v read_le32 (le_bytes 4 v) refl (λ rest. from_le-le_bytes 4 v h)

pub read_uint64-Reads : (v : ℕ) → v < 2 ^ 64 → Reads read_uint64 v (write_le64 v)
unfolding read_uint64 write_le64 read_le64
read_uint64-Reads v h =
    read_fixed-Reads 8 v read_le64 (le_bytes 8 v) refl (λ rest. from_le-le_bytes 8 v h)

pub read_bytes-Reads : (bytes : List ℕ) → Reads (read_bytes (length bytes)) bytes bytes
unfolding read_bytes
read_bytes-Reads bytes rest pos = rw (
  check_available_passes (length bytes) (bytes ++ rest) pos
      (omega (arith, length-append {0} bytes rest)),
  take-append bytes rest,
  drop-append bytes rest,
)

-- VarInt::decode finds the value that VarInt::encode wrote, and consumes what it wrote.
pub decode_varint-encode_varint :
    (v : ℕ) (rest : List ℕ)
    → v < 2 ^ 64
    → (decode_varint (encode_varint v ++ rest) ≡ some (v, length (encode_varint v)))
      × (encoded_size v ≡ length (encode_varint v))
unfolding decode_varint encode_varint encoded_size
decode_varint-encode_varint v rest h =
    ground (arith, from_le-le_bytes 2 v, from_le-le_bytes 4 v, from_le-le_bytes 8 v h)

encode_varint_pos : (v : ℕ) → 1 ≤ length (encode_varint v)
unfolding encode_varint
encode_varint_pos v = ground arith

pub read_varint-Reads : (v : ℕ) → v ≤ max_size → Reads read_varint v (encode_varint v)
unfolding read_varint
read_varint-Reads v h rest pos =
    let decoded : decode_varint (encode_varint v ++ rest) ≡ some (v, length (encode_varint v)) =
      (decode_varint-encode_varint v rest (omega arith)).0 in
    let small : ltb max_size v ≡ false = ground arith in
    let passes : check_available 1 (at (encode_varint v ++ rest) pos)
        ≡ at (encode_varint v ++ rest) pos =
      check_available_passes 1 (encode_varint v ++ rest) pos
        (omega (arith, length-append {0} (encode_varint v) rest, encode_varint_pos v)) in
    rw (passes, decoded, small, passes, drop-append (encode_varint v) rest)

-- The bytes of an address on the wire.
abbrev pub address_bytes : NetworkAddress → List ℕ
address_bytes a = write_le64 a.services ++ (a.ip ++ write_be16 a.port)

pub record IsAddress (a : NetworkAddress) : Type 0 where
  pub services_fit : a.services < 2 ^ 64
  pub ip_size : length a.ip ≡ 16
  pub port_fits : a.port < 2 ^ 16

pub write_network_address-append :
    (a : NetworkAddress) (buf : Buffer) → write_network_address a buf ≡ buf ++ address_bytes a
unfolding write_network_address write_le64 write_be16
write_network_address-append a buf = simp append_assoc

length-address_bytes : (a : NetworkAddress) → IsAddress a → length (address_bytes a) ≡ 26
unfolding write_le64 write_be16
length-address_bytes a v = omega (arith, length-append {0} a.ip, v.ip_size)

read_port-write :
    (services port : ℕ) (ip rest : List ℕ) (pos : ℕ)
    → port < 2 ^ 16
    → read_port services ip (at (write_be16 port ++ rest) pos)
      ≡ (record { services = services; ip = ip; port = port }, at rest (pos + 2))
unfolding read_port write_be16 read_be16
read_port-write services port ip rest pos fits =
    let there : check_available 2 (at (write_be16 port ++ rest) pos)
        ≡ at (write_be16 port ++ rest) pos =
      check_available_passes 2 (write_be16 port ++ rest) pos (omega arith) in
    rw there (ground arith)

read_ip-write :
    (services port : ℕ) (ip rest : List ℕ) (pos : ℕ)
    → length ip ≡ 16
    → port < 2 ^ 16
    → read_ip services (at (ip ++ (write_be16 port ++ rest)) pos)
      ≡ (record { services = services; ip = ip; port = port }, at rest (pos + 16 + 2))
unfolding read_ip
read_ip-write services port ip rest pos size fits =
    let all : List ℕ = ip ++ (write_be16 port ++ rest) in
    let there : check_available 16 (at all pos) ≡ at all pos =
      check_available_passes 16 all pos
        (omega (arith, length-append {0} ip (write_be16 port ++ rest), size)) in
    rw
      (
        there,
        take_exact 16 ip (write_be16 port ++ rest) size,
        drop_exact 16 ip (write_be16 port ++ rest) size,
      )
      (read_port-write services port ip rest (pos + 16) fits)

pub read_network_address-Reads :
    (a : NetworkAddress) → IsAddress a → Reads read_network_address a (address_bytes a)
unfolding read_network_address
read_network_address-Reads a v rest pos =
    let eight : length (write_le64 a.services) ≡ 8 = unfold write_le64 in refl in
    let position : pos + length (write_le64 a.services) + 16 + 2 ≡ pos + length (address_bytes a) =
      omega (arith, length-address_bytes a v, eight) in
    rw (
      append_assoc (write_le64 a.services) (a.ip ++ write_be16 a.port) rest,
      append_assoc a.ip (write_be16 a.port) rest,
      read_uint64-Reads a.services v.services_fit (a.ip ++ (write_be16 a.port ++ rest)) pos,
      read_ip-write a.services a.port a.ip rest (pos + length (write_le64 a.services)) v.ip_size
          v.port_fits,
      position,
    )

abbrev pub timestamped_bytes : TimestampedAddress → List ℕ
timestamped_bytes t = write_le32 t.timestamp ++ address_bytes t.address

pub record IsTimestamped (t : TimestampedAddress) : Type 0 where
  pub timestamp_fits : t.timestamp < 2 ^ 32
  pub address_fits : IsAddress t.address

pub read_timestamped_address-Reads :
    (t : TimestampedAddress)
    → IsTimestamped t
    → Reads read_timestamped_address t (timestamped_bytes t)
unfolding read_timestamped_address
read_timestamped_address-Reads t v rest pos = rw (
  append_assoc (write_le32 t.timestamp) (address_bytes t.address) rest,
  read_uint32-Reads t.timestamp v.timestamp_fits (address_bytes t.address ++ rest) pos,
  read_network_address-Reads t.address v.address_fits rest (pos + length (write_le32 t.timestamp)),
  length-append (write_le32 t.timestamp) (address_bytes t.address),
  add_assoc pos (length (write_le32 t.timestamp)) (length (address_bytes t.address)),
)

abbrev pub inventory_bytes : InventoryVector → List ℕ
inventory_bytes v = write_le32 v.kind ++ v.hash

pub record IsInventory (v : InventoryVector) : Type 0 where
  pub kind_fits : v.kind < 2 ^ 32
  pub hash_size : length v.hash ≡ 32

pub write_inventory_vector-append :
    (v : InventoryVector) (buf : Buffer) → write_inventory_vector v buf ≡ buf ++ inventory_bytes v
unfolding write_inventory_vector write_le32
write_inventory_vector-append v buf = simp append_assoc

pub read_inventory_vector-Reads :
    (v : InventoryVector) → IsInventory v → Reads read_inventory_vector v (inventory_bytes v)
unfolding read_inventory_vector
read_inventory_vector-Reads v h rest pos =
    let four : length (write_le32 v.kind) ≡ 4 = unfold write_le32 in refl in
    let start = pos + length (write_le32 v.kind) in
    let there : check_available 32 (at (v.hash ++ rest) start) ≡ at (v.hash ++ rest) start =
      check_available_passes 32 (v.hash ++ rest) start
        (omega (arith, length-append {0} v.hash rest, h.hash_size)) in
    let position : start + 32 ≡ pos + length (inventory_bytes v) =
      omega (arith, length-append {0} (write_le32 v.kind) v.hash, h.hash_size) in
    rw (
      append_assoc (write_le32 v.kind) v.hash rest,
      read_uint32-Reads v.kind h.kind_fits (v.hash ++ rest) pos,
      there,
      take_exact 32 v.hash rest h.hash_size,
      drop_exact 32 v.hash rest h.hash_size,
      position,
    )

-- A string comes back if it is no longer than the reader allows.
pub read_string-Reads :
    (str : List ℕ) (limit : ℕ)
    → length str ≤ limit
    → length str ≤ max_size
    → Reads (read_string limit) str (encode_varint (length str) ++ str)
unfolding read_string
read_string-Reads str limit h small rest pos =
    let n = length str in
    let fits : ltb limit n ≡ false = ground arith in
    let there : ltb (length (str ++ rest)) n ≡ false = ground (arith, length-append str rest) in
    rw (
      append_assoc (encode_varint n) str rest,
      read_varint-Reads n small (str ++ rest) pos,
      fits,
      there,
      take-append str rest,
      drop-append str rest,
      length-append (encode_varint n) str,
      add_assoc pos (length (encode_varint n)) n,
    )
