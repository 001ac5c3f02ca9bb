-- ===== src/Net/Messages/RoundTrip.antt =====
-- Each message is parsed back from what was written.
use mathlib.Core.List.{append_assoc, append-nil}
use native.Mathlib.Nat.{add_assoc}
use coinbasechain.Base.{
  ℕ, ◌+◌, ◌<◌, ◌≤◌, ◌^◌, ◌≡◌, refl, sym, ◌∙◌, false, Option, some, List, [], ◌∷◌, ◌++◌, ltb, length,
  arith, length-append, All,
}
use coinbasechain.Base.Endian.{write_le32, write_le64}
use coinbasechain.Chain.Header.{BlockHeader, IsHeader, serialize, deserialize}
use coinbasechain.Chain.Header.RoundTrip.{deserialize-serialize, length-serialize}
use coinbasechain.Net.Wire.{
  Buffer, Deserializer, new_deserializer, write_uint32, write_uint64, write_varint, write_bytes,
  write_string, write_inventory_vector, read_uint32, read_uint64, read_bytes, read_string,
  TimestampedAddress, InventoryVector, encode_varint, max_size,
}
use coinbasechain.Net.Wire.RoundTrip.{
  at, read_uint32-Reads, read_uint64-Reads, read_varint-Reads, read_bytes-Reads, read_string-Reads,
  read_network_address-Reads, read_timestamped_address-Reads, read_inventory_vector-Reads,
  IsAddress, IsTimestamped, IsInventory, address_bytes, timestamped_bytes, inventory_bytes,
  write_network_address-append, write_inventory_vector-append,
}
use coinbasechain.Net.Messages.{
  VersionMessage, serialize_version, deserialize_version, serialize_nonce, deserialize_nonce,
  read_loop, read_counted, write_all, write_timestamped, serialize_addr, addr_step,
  deserialize_addr, serialize_inv, inv_step, deserialize_inv, GetHeadersMessage,
  serialize_getheaders, locator_step, deserialize_getheaders, write_header, serialize_headers,
  header_step, deserialize_headers, max_subversion_length, max_addr_size, max_inv_size,
  max_locator_sz, max_headers_size,
}

-- A loop step finds its entry in these bytes, and stops behind them.
abbrev Steps : {A : Type 0} → (Deserializer → Option (A × Deserializer)) → A → List ℕ → Type 0
Steps step x bytes =
    (rest : List ℕ) (pos : ℕ)
    → step (at (bytes ++ rest) pos) ≡ some (x, at rest (pos + length bytes))

module _ {A : Type 0} (bytes_of : A → List ℕ) where
  abbrev bytes_of_all : List A → List ℕ
  bytes_of_all [] = []
  bytes_of_all (x ∷ xs) = bytes_of x ++ bytes_of_all xs

  write_all-append :
      (write : A → Buffer → Buffer)
      → ((x : A) (buf : Buffer) → write x buf ≡ buf ++ bytes_of x)
      → (xs : List A) (buf : Buffer) → write_all write xs buf ≡ buf ++ bytes_of_all xs
  unfolding write_all
  write_all-append write h [] buf = sym (append-nil buf)
  write_all-append write h (x ∷ xs) buf =
      rw (h x buf, write_all-append write h xs (buf ++ bytes_of x))
        (append_assoc buf (bytes_of x) (bytes_of_all xs))

  module _ (step : Deserializer → Option (A × Deserializer)) where
    read_loop-Steps :
        (xs : List A)
        → All (λ x. Steps step x (bytes_of x)) xs
        → (rest : List ℕ) (pos : ℕ)
        → read_loop step (length xs) (at (bytes_of_all xs ++ rest) pos)
          ≡ some (xs, at rest (pos + length (bytes_of_all xs)))
    unfolding read_loop
    read_loop-Steps [] h rest pos = let e : pos + 0 ≡ pos = omega arith in rw e
    read_loop-Steps (x ∷ xs) h rest pos = rw (
      append_assoc (bytes_of x) (bytes_of_all xs) rest,
      h.0 (bytes_of_all xs ++ rest) pos,
      read_loop-Steps xs h.1 rest (pos + length (bytes_of x)),
      length-append (bytes_of x) (bytes_of_all xs),
      add_assoc pos (length (bytes_of x)) (length (bytes_of_all xs)),
    )

    read_counted-Steps :
        (limit : ℕ) (xs : List A)
        → length xs ≤ limit
        → limit ≤ max_size
        → All (λ x. Steps step x (bytes_of x)) xs
        → read_counted step limit (new_deserializer (encode_varint (length xs) ++ bytes_of_all xs))
          ≡ some xs
    unfolding read_counted new_deserializer
    read_counted-Steps limit xs short small h =
        let fits : ltb limit (length xs) ≡ false = ground arith in
        rw (
          sym (append-nil (bytes_of_all xs)),
          read_varint-Reads (length xs) (omega arith) (bytes_of_all xs ++ []) 0,
          fits,
          read_loop-Steps xs h [] (0 + length (encode_varint (length xs))),
        )

All-map :
    {A : Type 0} {P Q : A → Type 0} (xs : List A) → ((x : A) → P x → Q x) → All P xs → All Q xs
All-map [] f h = tt
All-map (x ∷ xs) f h = (f x h.0, All-map xs f h.1)

timestamped-append :
    (t : TimestampedAddress) (buf : Buffer) → write_timestamped t buf ≡ buf ++ timestamped_bytes t
unfolding write_timestamped write_le32
timestamped-append t buf =
    write_network_address-append t.address (buf ++ write_le32 t.timestamp)
    ∙ append_assoc buf (write_le32 t.timestamp) (address_bytes t.address)

addr_step-Steps :
    (t : TimestampedAddress) → IsTimestamped t → Steps addr_step t (timestamped_bytes t)
unfolding addr_step
addr_step-Steps t v rest pos = rw (read_timestamped_address-Reads t v rest pos)

-- An ADDR message of at most 1000 well-formed addresses is parsed back.
pub deserialize_addr-serialize_addr :
    (xs : List TimestampedAddress)
    → length xs ≤ max_addr_size
    → All IsTimestamped xs
    → deserialize_addr (serialize_addr xs) ≡ some xs
unfolding deserialize_addr serialize_addr write_varint
deserialize_addr-serialize_addr xs short h =
    rw
      (write_all-append timestamped_bytes write_timestamped timestamped-append xs
        (encode_varint (length xs)))
      (read_counted-Steps timestamped_bytes addr_step max_addr_size xs short (omega arith)
        (All-map xs addr_step-Steps h))

inv_step-Steps : (v : InventoryVector) → IsInventory v → Steps inv_step v (inventory_bytes v)
unfolding inv_step
inv_step-Steps v h rest pos = rw (read_inventory_vector-Reads v h rest pos)

-- An INV message of at most 50000 well-formed entries is parsed back.
pub deserialize_inv-serialize_inv :
    (xs : List InventoryVector)
    → length xs ≤ max_inv_size
    → All IsInventory xs
    → deserialize_inv (serialize_inv xs) ≡ some xs
unfolding deserialize_inv serialize_inv write_varint
deserialize_inv-serialize_inv xs short h =
    rw
      (write_all-append inventory_bytes write_inventory_vector write_inventory_vector-append xs
        (encode_varint (length xs)))
      (read_counted-Steps inventory_bytes inv_step max_inv_size xs short (omega arith)
        (All-map xs inv_step-Steps h))

header-append : (h : BlockHeader) (buf : Buffer) → write_header h buf ≡ buf ++ serialize h
unfolding write_header
header-append h buf = refl

header_step-Steps : (h : BlockHeader) → IsHeader h → Steps header_step h (serialize h)
unfolding header_step
header_step-Steps h v rest pos =
    let size : length (serialize h) ≡ 100 = length-serialize h v in
    let read : read_bytes 100 (at (serialize h ++ rest) pos) ≡ (serialize h, at rest (pos + 100)) =
      rw size at (read_bytes-Reads (serialize h) rest pos) in
    let parsed : deserialize (serialize h) 100 ≡ some h = rw size at (deserialize-serialize h v) in
    simp (read, size, parsed)

-- A HEADERS message of at most 2000 well-formed headers is parsed back.
pub deserialize_headers-serialize_headers :
    (xs : List BlockHeader)
    → length xs ≤ max_headers_size
    → All IsHeader xs
    → deserialize_headers (serialize_headers xs) ≡ some xs
unfolding deserialize_headers serialize_headers write_varint
deserialize_headers-serialize_headers xs short h =
    rw (write_all-append serialize write_header header-append xs (encode_varint (length xs))) (
      read_counted-Steps serialize header_step max_headers_size xs short (omega arith)
        (All-map xs header_step-Steps h))

-- PING and PONG bring the nonce back.
pub deserialize_nonce-serialize_nonce :
    (nonce : ℕ) → nonce < 2 ^ 64 → deserialize_nonce (serialize_nonce nonce) ≡ some nonce
unfolding deserialize_nonce serialize_nonce new_deserializer write_le64
deserialize_nonce-serialize_nonce nonce h =
    let read : read_uint64 (at (write_le64 nonce) 0) ≡ (nonce, at [] 8) =
      read_uint64-Reads nonce h [] 0 in
    rw read

abbrev IsHash : List ℕ → Type 0
IsHash bytes = length bytes ≡ 32

locator_step-Steps : (bytes : List ℕ) → IsHash bytes → Steps locator_step bytes bytes
unfolding locator_step
locator_step-Steps bytes e rest pos =
    let read : read_bytes 32 (at (bytes ++ rest) pos) ≡ (bytes, at rest (pos + 32)) =
      rw e at (read_bytes-Reads bytes rest pos) in
    rw (read, e)

pub record IsGetHeaders (m : GetHeadersMessage) : Type 0 where
  pub version_fits : m.version < 2 ^ 32
  pub few_hashes : length m.block_locator_hashes ≤ max_locator_sz
  pub hash_sizes : All IsHash m.block_locator_hashes
  pub stop_size : IsHash m.hash_stop

serialize_getheaders_lem :
    (m : GetHeadersMessage)
    → serialize_getheaders m
      ≡ write_le32 m.version
        ++ (encode_varint (length m.block_locator_hashes)
            ++ (bytes_of_all (λ h. h) m.block_locator_hashes ++ m.hash_stop))
unfolding serialize_getheaders write_varint write_bytes write_uint32
serialize_getheaders_lem m =
    rw
      (write_all-append (λ h. h) write_bytes (λ h buf. refl) m.block_locator_hashes
        (write_le32 m.version ++ encode_varint (length m.block_locator_hashes)))
      (simp append_assoc)

-- A GETHEADERS message of at most 101 hashes is parsed back.
pub deserialize_getheaders-serialize_getheaders :
    (m : GetHeadersMessage)
    → IsGetHeaders m
    → deserialize_getheaders (serialize_getheaders m) ≡ some m
unfolding deserialize_getheaders new_deserializer
deserialize_getheaders-serialize_getheaders m v =
    let hashes = m.block_locator_hashes in
    let n = length hashes in
    let all = bytes_of_all (λ h. h) hashes in
    let start = length (write_le32 m.version) in
    let start' = start + length (encode_varint n) in
    let version =
      read_uint32-Reads m.version v.version_fits (encode_varint n ++ (all ++ m.hash_stop)) 0 in
    let count =
      read_varint-Reads n (omega (arith, v.few_hashes)) (all ++ m.hash_stop) (0 + start) in
    let fits : ltb max_locator_sz n ≡ false = ground (arith, v.few_hashes) in
    let locator =
      read_loop-Steps (λ h. h) locator_step hashes (All-map hashes locator_step-Steps v.hash_sizes)
        m.hash_stop (0 + start + length (encode_varint n)) in
    let stop : read_bytes 32 (at m.hash_stop (0 + start + length (encode_varint n) + length all))
        ≡ (m.hash_stop, at [] (0 + start + length (encode_varint n) + length all + 32)) =
      rw (append-nil m.hash_stop, v.stop_size) at
        (read_bytes-Reads m.hash_stop [] (0 + start + length (encode_varint n) + length all)) in
    simp (serialize_getheaders_lem m, version, count, fits, locator, stop, v.stop_size)

pub record IsVersion (m : VersionMessage) : Type 0 where
  pub version_fits : m.version < 2 ^ 32
  pub services_fit : m.services < 2 ^ 64
  pub timestamp_fits : m.timestamp < 2 ^ 64
  pub recv_fits : IsAddress m.addr_recv
  pub from_fits : IsAddress m.addr_from
  pub nonce_fits : m.nonce < 2 ^ 64
  pub short_agent : length m.user_agent ≤ max_subversion_length
  pub height_fits : m.start_height < 2 ^ 32

agent_bytes : VersionMessage → List ℕ
agent_bytes m = encode_varint (length m.user_agent) ++ m.user_agent

serialize_version_lem :
    (m : VersionMessage)
    → serialize_version m
      ≡ write_le32 m.version
        ++ (write_le64 m.services
            ++ (write_le64 m.timestamp
                ++ (address_bytes m.addr_recv
                    ++ (address_bytes m.addr_from
                        ++ (write_le64 m.nonce ++ (agent_bytes m ++ write_le32 m.start_height))))))
unfolding serialize_version write_uint32 write_uint64 write_string agent_bytes
serialize_version_lem m = simp (
  write_network_address-append m.addr_recv,
  write_network_address-append m.addr_from,
  append_assoc,
)

-- A VERSION message with a user agent of at most 256 bytes is parsed back.
pub deserialize_version-serialize_version :
    (m : VersionMessage) → IsVersion m → deserialize_version (serialize_version m) ≡ some m
unfolding deserialize_version new_deserializer
deserialize_version-serialize_version m v =
    let r₇ = write_le32 m.start_height in
    let r₆ = agent_bytes m ++ r₇ in
    let r₅ = write_le64 m.nonce ++ r₆ in
    let r₄ = address_bytes m.addr_from ++ r₅ in
    let r₃ = address_bytes m.addr_recv ++ r₄ in
    let r₂ = write_le64 m.timestamp ++ r₃ in
    let r₁ = write_le64 m.services ++ r₂ in
    let p₁ = 0 + length (write_le32 m.version) in
    let p₂ = p₁ + length (write_le64 m.services) in
    let p₃ = p₂ + length (write_le64 m.timestamp) in
    let p₄ = p₃ + length (address_bytes m.addr_recv) in
    let p₅ = p₄ + length (address_bytes m.addr_from) in
    let p₆ = p₅ + length (write_le64 m.nonce) in
    let p₇ = p₆ + length (agent_bytes m) in
    let agent : read_string 256 (at r₆ p₆) ≡ (m.user_agent, at r₇ p₇) =
      unfold agent_bytes in
      read_string-Reads m.user_agent 256 v.short_agent (omega (arith, v.short_agent)) r₇ p₆ in
    let height : read_uint32 (at r₇ p₇) ≡ (m.start_height, at [] (p₇ + length r₇)) =
      rw (append-nil r₇) at (read_uint32-Reads m.start_height v.height_fits [] p₇) in
    simp (
      serialize_version_lem m,
      read_uint32-Reads m.version v.version_fits r₁ 0,
      read_uint64-Reads m.services v.services_fit r₂ p₁,
      read_uint64-Reads m.timestamp v.timestamp_fits r₃ p₂,
      read_network_address-Reads m.addr_recv v.recv_fits r₄ p₃,
      read_network_address-Reads m.addr_from v.from_fits r₅ p₄,
      read_uint64-Reads m.nonce v.nonce_fits r₆ p₅,
      agent,
      height,
    )
