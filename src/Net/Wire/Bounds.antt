-- ===== src/Net/Wire/Bounds.antt =====
-- What the reader guarantees on any bytes, after any reads.
use coinbasechain.Base.{
  ℕ, ◌≤◌, ◌≡◌, refl, ap, ◌∙◌, Bool, true, false, some, List, [], ◌∷◌, ltb, ◌||◌, if◌then◌else◌,
  length, take, drop, arith, length-drop, drop-drop, if_elim, Option_elim,
}
use coinbasechain.Base.Endian.{read_le16, read_le32, read_le64, read_be16, from_le}
use coinbasechain.Net.Wire.{
  max_size, decode_varint, Deserializer, check_available, read_fixed, Read, read_uint8, read_uint16,
  read_uint32, read_uint64, read_varint, read_bytes, read_string, read_bool, NetworkAddress,
  read_network_address, read_ip, read_port, read_timestamped_address, read_inventory_vector,
  advance, no_hash,
}

-- The reader stands at its position in the message, which has no byte less or more, and an error
-- that was there is still there.
abbrev pub Within : List ℕ → Bool → Deserializer → Type 0
Within bytes failed d =
    (d.rest ≡ drop d.position bytes)
    × (d.position ≤ length bytes)
    × (failed ≡ true → d.error ≡ true)

module _ (bytes : List ℕ) (failed : Bool) where
  abbrev Keeps : (A : Type 0) → A × Deserializer → Type 0
  Keeps A r = Within bytes failed r.1

  check_available-Within :
      (n : ℕ) (d : Deserializer) → Within bytes failed d → Within bytes failed (check_available n d)
  unfolding check_available
  check_available-Within n d w = ground (arith, w.2)

  advance-Within :
      (n : ℕ) (d : Deserializer)
      → Within bytes failed d
      → n ≤ length d.rest
      → Within bytes failed (advance n d)
  advance-Within n d (w₀, w₁, w₂) h = (
    ap (drop n) w₀ ∙ drop-drop d.position n bytes,
    omega (arith, ap length w₀, length-drop d.position bytes),
    w₂,
  )

  check_available_enough :
      (n : ℕ) (d : Deserializer)
      → (check_available n d).error ≡ false
      → n ≤ length (check_available n d).rest
  unfolding check_available
  check_available_enough n d h = ground arith

  -- Check, and on success move on: what every read is made of.
  abbrev checked : {A : Type 0} → ℕ → (Deserializer → A) → A → Read A
  checked n read failure d =
      let c = check_available n d in if c.error then (failure, c) else (read c, advance n c)

  checked-Within :
      {A : Type 0} (n : ℕ) (read : Deserializer → A) (failure : A) (d : Deserializer)
      → Within bytes failed d
      → Within bytes failed (checked n read failure d).1
  checked-Within {A} n read failure d w =
      let kept : Within bytes failed (check_available n d) = check_available-Within n d w in
      if_elim (Keeps A) (check_available n d).error (λ bad. kept)
        (λ good. advance-Within n (check_available n d) kept (check_available_enough n d good))

  read_fixed-Within :
      (n : ℕ) (read : List ℕ → ℕ) (d : Deserializer)
      → Within bytes failed d
      → Within bytes failed (read_fixed n read d).1
  unfolding read_fixed
  read_fixed-Within n read d w = checked-Within n (λ c. read c.rest) 0 d w

  read_bytes-Within :
      (n : ℕ) (d : Deserializer) → Within bytes failed d → Within bytes failed (read_bytes n d).1
  unfolding read_bytes
  read_bytes-Within n d w = checked-Within n (λ c. take n c.rest) [] d w

  -- A failed read keeps its place.
  error-Within :
      (d : Deserializer) → Within bytes failed d → Within bytes failed (record d { error = true })
  error-Within d (w₀, w₁, w₂) = (w₀, w₁, λ h. refl)

  decode_varint-le :
      (buffer : List ℕ) (v consumed : ℕ)
      → decode_varint buffer ≡ some (v, consumed)
      → consumed ≤ length buffer
  unfolding decode_varint
  decode_varint-le [] v consumed h = cc
  decode_varint-le (first ∷ buffer) v consumed h = ground arith

  read_varint-Within :
      (d : Deserializer) → Within bytes failed d → Within bytes failed (read_varint d).1
  unfolding read_varint
  read_varint-Within d w =
      let c = check_available 1 d in
      let kept : Within bytes failed c = check_available-Within 1 d w in
      if_elim (Keeps ℕ) c.error (λ bad. kept)
        λ good.
          Option_elim (Keeps ℕ) (decode_varint c.rest) (λ none_read. error-Within c kept)
            λ r e.
              if_elim (Keeps ℕ) (ltb max_size r.0) (λ too_big. error-Within c kept)
                (λ fits. advance-Within r.1 c kept (decode_varint-le c.rest r.0 r.1 e))

  read_string-Within :
      (limit : ℕ) (d : Deserializer)
      → Within bytes failed d
      → Within bytes failed (read_string limit d).1
  unfolding read_string
  read_string-Within limit d w =
      let r = read_varint d in
      let kept : Within bytes failed r.1 = read_varint-Within d w in
      if_elim (Keeps (List ℕ)) (r.1.error || ltb limit r.0 || ltb (length r.1.rest) r.0)
        (λ bad. error-Within r.1 kept) (λ good. advance-Within r.0 r.1 kept (ground arith))

  read_network_address-Within :
      (d : Deserializer) → Within bytes failed d → Within bytes failed (read_network_address d).1
  unfolding read_network_address read_uint64 read_ip read_port
  read_network_address-Within d w =
      let d₁ = (read_uint64 d).1 in
      let kept : Within bytes failed d₁ = read_fixed-Within 8 read_le64 d w in
      let c = check_available 16 d₁ in
      if_elim (Keeps NetworkAddress) c.error (λ bad. check_available-Within 16 d₁ kept)
        λ good.
          checked-Within 2
            (λ c'. record {
              services = (read_uint64 d).0;
              ip = take 16 c.rest;
              port = read_be16 c'.rest;
            })
            (record { services = (read_uint64 d).0; ip = take 16 c.rest; port = 0 }) (advance 16 c)
            (advance-Within 16 c (check_available-Within 16 d₁ kept)
              (check_available_enough 16 d₁ good))

  read_inventory_vector-Within :
      (d : Deserializer) → Within bytes failed d → Within bytes failed (read_inventory_vector d).1
  unfolding read_inventory_vector read_uint32
  read_inventory_vector-Within d w =
      checked-Within 32 (λ c. record { kind = (read_uint32 d).0; hash = take 32 c.rest })
        (record { kind = (read_uint32 d).0; hash = no_hash }) (read_uint32 d).1
        (read_fixed-Within 4 read_le32 d w)

-- The reads that a message parser may make, in any order.
pub data ReadCall : Type 0 where
  uint8 uint16 uint32 uint64 bool varint : ReadCall
  network_address timestamped_address inventory_vector : ReadCall
  byte_array string : ℕ → ReadCall

unfoldable pub read_call : ReadCall → Deserializer → Deserializer
unfolding read_uint8 read_uint16 read_uint32 read_uint64 read_bool read_timestamped_address
read_call uint8 d = (read_uint8 d).1
read_call uint16 d = (read_uint16 d).1
read_call uint32 d = (read_uint32 d).1
read_call uint64 d = (read_uint64 d).1
read_call bool d = (read_bool d).1
read_call varint d = (read_varint d).1
read_call network_address d = (read_network_address d).1
read_call timestamped_address d = (read_timestamped_address d).1
read_call inventory_vector d = (read_inventory_vector d).1
read_call (byte_array n) d = (read_bytes n d).1
read_call (string limit) d = (read_string limit d).1

unfoldable pub read_calls : List ReadCall → Deserializer → Deserializer
read_calls [] d = d
read_calls (c ∷ cs) d = read_calls cs (read_call c d)

read_call-Within :
    (bytes : List ℕ) (failed : Bool) (c : ReadCall) (d : Deserializer)
    → Within bytes failed d
    → Within bytes failed (read_call c d)
unfolding read_call
read_call-Within bytes failed uint8 d w =
    read_fixed-Within bytes failed 1 (λ b. from_le (take 1 b)) d w
read_call-Within bytes failed uint16 d w = read_fixed-Within bytes failed 2 read_le16 d w
read_call-Within bytes failed uint32 d w = read_fixed-Within bytes failed 4 read_le32 d w
read_call-Within bytes failed uint64 d w = read_fixed-Within bytes failed 8 read_le64 d w
read_call-Within bytes failed bool d w =
    read_fixed-Within bytes failed 1 (λ b. from_le (take 1 b)) d w
read_call-Within bytes failed varint d w = read_varint-Within bytes failed d w
read_call-Within bytes failed network_address d w = read_network_address-Within bytes failed d w
read_call-Within bytes failed timestamped_address d w =
    read_network_address-Within bytes failed (read_uint32 d).1
      (read_fixed-Within bytes failed 4 read_le32 d w)
read_call-Within bytes failed inventory_vector d w = read_inventory_vector-Within bytes failed d w
read_call-Within bytes failed (byte_array n) d w = read_bytes-Within bytes failed n d w
read_call-Within bytes failed (string limit) d w = read_string-Within bytes failed limit d w

-- Whatever the bytes are and whatever reads are made of them in any order, the reader never moves
-- past the end, still sees exactly the bytes behind its position, and never forgets an error.
pub read_calls-Within :
    (bytes : List ℕ) (failed : Bool) (cs : List ReadCall) (d : Deserializer)
    → Within bytes failed d
    → Within bytes failed (read_calls cs d)
unfolding read_calls
read_calls-Within bytes failed [] d w = w
read_calls-Within bytes failed (c ∷ cs) d w =
    read_calls-Within bytes failed cs (read_call c d) (read_call-Within bytes failed c d w)
