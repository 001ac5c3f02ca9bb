-- ===== src/Chain/Header/RoundTrip.antt =====
-- Serialising a header and reading it back, in both directions.
use coinbasechain.Base.{
  ℕ, ◌≡◌, refl, sym, ap, ap₂, ◌∙◌, ◌<◌, ◌^◌, some, List, ◌++◌, take, drop, length, All, arith,
  take-append-drop, drop-drop, take_exact, take_all, ◌+◌, ◌≤◌, drop_exact, drop_past, length-take,
  length-drop, All-take, All-drop, length-append,
}
use coinbasechain.Base.Endian.{
  write_le32, read_le32, IsByte, from_le-le_bytes, le_bytes-from_le, from_le-lt,
}
use coinbasechain.Chain.Header.{BlockHeader, IsHeader, serialize, deserialize, read_fields}

pub length-serialize : (h : BlockHeader) → IsHeader h → length (serialize h) ≡ 100
unfolding serialize
length-serialize h v = omega (
  arith,
  length-append {0} h.hash_prev_block,
  length-append {0} h.miner_address,
  v.prev_size,
  v.miner_size,
  v.random_x_size,
)

read-write : (v : ℕ) (rest : List ℕ) → v < 2 ^ 32 → read_le32 (write_le32 v ++ rest) ≡ v
unfolding read_le32 write_le32
read-write v rest h = from_le-le_bytes 4 v (omega arith)

abbrev from_time : BlockHeader → List ℕ
from_time h = write_le32 h.time ++ (write_le32 h.bits ++ (write_le32 h.nonce ++ h.hash_random_x))

abbrev from_miner : BlockHeader → List ℕ
from_miner h = h.miner_address ++ from_time h

module _ (h : BlockHeader) (v : IsHeader h) where
  drop_miner : drop 36 (serialize h) ≡ from_miner h
  unfolding serialize
  drop_miner = drop_exact 32 h.hash_prev_block (from_miner h) v.prev_size

  drop_after_miner : (k : ℕ) → drop (20 + k) (from_miner h) ≡ drop k (from_time h)
  drop_after_miner k = drop_past 20 k h.miner_address (from_time h) v.miner_size

  drop_time : drop 56 (serialize h) ≡ from_time h
  unfolding serialize
  drop_time = drop_past 32 20 h.hash_prev_block (from_miner h) v.prev_size ∙ drop_after_miner 0

  drop_bits : drop 60 (serialize h) ≡ write_le32 h.bits ++ (write_le32 h.nonce ++ h.hash_random_x)
  unfolding serialize
  drop_bits = drop_past 32 24 h.hash_prev_block (from_miner h) v.prev_size ∙ drop_after_miner 4

  drop_nonce : drop 64 (serialize h) ≡ write_le32 h.nonce ++ h.hash_random_x
  unfolding serialize
  drop_nonce = drop_past 32 28 h.hash_prev_block (from_miner h) v.prev_size ∙ drop_after_miner 8

  drop_random_x : drop 68 (serialize h) ≡ h.hash_random_x
  unfolding serialize
  drop_random_x = drop_past 32 32 h.hash_prev_block (from_miner h) v.prev_size ∙ drop_after_miner 12

  read_version : read_le32 (serialize h) ≡ h.version
  unfolding serialize
  read_version = read-write h.version (h.hash_prev_block ++ from_miner h) v.version_fits

  read_prev : take 32 (drop 4 (serialize h)) ≡ h.hash_prev_block
  unfolding serialize
  read_prev = take_exact 32 h.hash_prev_block (from_miner h) v.prev_size

  read_fields-serialize : read_fields (serialize h) ≡ h
  unfolding read_fields
  read_fields-serialize = λ i. record {
    version = read_version i;
    hash_prev_block = read_prev i;
    miner_address = (ap (take 20) drop_miner ∙ take_exact 20 h.miner_address _ v.miner_size) i;
    time = (ap read_le32 drop_time ∙ read-write h.time _ v.time_fits) i;
    bits = (ap read_le32 drop_bits ∙ read-write h.bits _ v.bits_fit) i;
    nonce = (ap read_le32 drop_nonce ∙ read-write h.nonce _ v.nonce_fits) i;
    hash_random_x = (ap (take 32) drop_random_x ∙ take_all 32 h.hash_random_x v.random_x_size) i;
  }

-- Every header is read back from its 100 bytes.
pub deserialize-serialize :
    (h : BlockHeader) → IsHeader h → deserialize (serialize h) (length (serialize h)) ≡ some h
unfolding deserialize
deserialize-serialize h v = rw (length-serialize h v) (ap some (read_fields-serialize h v))

take-IsByte : (n k : ℕ) (bytes : List ℕ) → All IsByte bytes → All IsByte (take n (drop k bytes))
take-IsByte n k bytes b = All-take IsByte n (drop k bytes) (All-drop IsByte k bytes b)

length-field :
    (n k : ℕ) (bytes : List ℕ)
    → length bytes ≡ 100
    → n + k ≤ 100
    → length (take n (drop k bytes)) ≡ n
length-field n k bytes e h = omega (arith, length-take n (drop k bytes), length-drop k bytes)

field-lt :
    (k : ℕ) (bytes : List ℕ)
    → All IsByte bytes
    → length bytes ≡ 100
    → k ≤ 96
    → read_le32 (drop k bytes) < 2 ^ 32
unfolding read_le32
field-lt k bytes b e h =
    let size : length (take 4 (drop k bytes)) ≡ 4 = length-field 4 k bytes e (omega arith) in
    rw size at (from_le-lt (take 4 (drop k bytes)) (take-IsByte 4 k bytes b))

write-read :
    (k : ℕ) (bytes : List ℕ)
    → All IsByte bytes
    → length bytes ≡ 100
    → k ≤ 96
    → write_le32 (read_le32 (drop k bytes)) ≡ take 4 (drop k bytes)
unfolding read_le32 write_le32
write-read k bytes b e h =
    let size : length (take 4 (drop k bytes)) ≡ 4 = length-field 4 k bytes e (omega arith) in
    rw size at (le_bytes-from_le (take 4 (drop k bytes)) (take-IsByte 4 k bytes b))

-- One field after another.
join :
    (n k : ℕ) (bytes : List ℕ) {xs ys : List ℕ}
    → xs ≡ take n (drop k bytes)
    → ys ≡ drop (k + n) bytes
    → xs ++ ys ≡ drop k bytes
join n k bytes p q = ap₂ ◌++◌ p (q ∙ sym (drop-drop k n bytes)) ∙ take-append-drop n (drop k bytes)

module _ (bytes : List ℕ) (b : All IsByte bytes) (e : length bytes ≡ 100) where
  read_fields-IsHeader : IsHeader (read_fields bytes)
  unfolding read_fields
  read_fields-IsHeader = record {
    version_fits = field-lt 0 bytes b e (omega arith);
    prev_size = length-field 32 4 bytes e (omega arith);
    prev_bytes = take-IsByte 32 4 bytes b;
    miner_size = length-field 20 36 bytes e (omega arith);
    miner_bytes = take-IsByte 20 36 bytes b;
    time_fits = field-lt 56 bytes b e (omega arith);
    bits_fit = field-lt 60 bytes b e (omega arith);
    nonce_fits = field-lt 64 bytes b e (omega arith);
    random_x_size = length-field 32 68 bytes e (omega arith);
    random_x_bytes = take-IsByte 32 68 bytes b;
  }

  serialize-read_fields : serialize (read_fields bytes) ≡ bytes
  unfolding serialize read_fields
  serialize-read_fields = join 4 0 bytes (write-read 0 bytes b e (omega arith)) (
      join 32 4 bytes refl (
        join 20 36 bytes refl (
          join 4 56 bytes (write-read 56 bytes b e (omega arith)) (
            join 4 60 bytes (write-read 60 bytes b e (omega arith)) (
              join 4 64 bytes (write-read 64 bytes b e (omega arith))
                (take_all 32 (drop 68 bytes) (omega (arith, length-drop 68 bytes))))))))

deserialize-eq-some :
    (bytes : List ℕ) (size : ℕ) (h : BlockHeader)
    → deserialize bytes size ≡ some h
    → (size ≡ 100) × (read_fields bytes ≡ h)
unfolding deserialize
deserialize-eq-some bytes size h e = ground arith

-- 100 bytes are the serialisation of the header that is read from them.
pub serialize-deserialize :
    (bytes : List ℕ) (h : BlockHeader)
    → All IsByte bytes
    → deserialize bytes (length bytes) ≡ some h
    → IsHeader h × (serialize h ≡ bytes)
serialize-deserialize bytes h b e =
    let (size, eq) = deserialize-eq-some bytes (length bytes) h e in
    (rw eq at (read_fields-IsHeader bytes b size), rw eq at (serialize-read_fields bytes b size))
