-- ===== src/Net/Envelope/Commands.antt =====
-- Commands and headers there and back.
use coinbasechain.Base.{
  ℕ, zero, suc, ◌-◌, ◌^◌, ◌%◌, ◌≤◌, ◌<◌, ◌≡◌, refl, ◌∙◌, ap, subst, arith, true, false, not, Option,
  some, List, [], ◌∷◌, ◌++◌, ltb, if_elim, length, take, drop, replicate, All, length-append,
  length-replicate, length-take, take_all, take_past, take_exact, drop_past, drop_exact, not-false,
  ltb-false,
}
use coinbasechain.Base.Endian.{write_le32, read_le32, from_le-le_bytes}
use coinbasechain.Net.Envelope.{
  MessageHeader, message_header_size, command_size, max_protocol_message_length, get_command,
  set_command, compute_checksum, create_header, serialize_header, is_valid_command,
  deserialize_header,
}

-- Printable ASCII, as the parser wants it.
abbrev pub IsPrintable : ℕ → Type 0
IsPrintable c = (0x20 ≤ c) × (c ≤ 0x7e)

zeros-is_valid : (n : ℕ) → is_valid_command true (replicate n 0) ≡ true
unfolding is_valid_command
zeros-is_valid zero = refl
zeros-is_valid (suc n) = zeros-is_valid n

padded-is_valid :
    (cmd : List ℕ) (n : ℕ)
    → All IsPrintable cmd
    → is_valid_command false (cmd ++ replicate (suc n) 0) ≡ true
unfolding is_valid_command
padded-is_valid [] n h = zeros-is_valid n
padded-is_valid (c ∷ cmd) n h = ground (arith, padded-is_valid cmd n)

get_command_padded :
    (cmd : List ℕ) (n : ℕ) → All IsPrintable cmd → get_command (cmd ++ replicate (suc n) 0) ≡ cmd
unfolding get_command
get_command_padded [] n h = refl
get_command_padded (c ∷ cmd) n h = ground (arith, get_command_padded cmd n)

is_valid-zeros : (cs : List ℕ) → is_valid_command true cs ≡ true → cs ≡ replicate (length cs) 0
unfolding is_valid_command
is_valid-zeros [] h = refl
is_valid-zeros (c ∷ cs) h = ground (arith, is_valid-zeros cs)

-- What the parser accepts is printable text with at least one zero behind it, and only zeros.
abbrev pub IsPadded : List ℕ → Type 0
IsPadded cs =
    (n : ℕ) × (cs ≡ get_command cs ++ replicate (suc n) 0) × All IsPrintable (get_command cs)

get_command-suc : (c : ℕ) (cs : List ℕ) → get_command (suc c ∷ cs) ≡ suc c ∷ get_command cs
unfolding get_command
get_command-suc c cs = ground arith

is_valid-IsPadded : (cs : List ℕ) → is_valid_command false cs ≡ true → IsPadded cs
unfolding is_valid_command get_command
is_valid-IsPadded [] h = cc
is_valid-IsPadded (zero ∷ cs) h = (length cs, ap (λ l. 0 ∷ l) (is_valid-zeros cs h), tt)
is_valid-IsPadded (suc c ∷ cs) h =
    let rest : is_valid_command false cs ≡ true = ground arith in
    let (n, eq, all) = is_valid-IsPadded cs rest in
    (
      n,
      rw (get_command-suc c cs) (ap (λ l. suc c ∷ l) eq),
      rw (get_command-suc c cs) (ground arith, all),
    )

set_command-short :
    (cmd : List ℕ)
    → length cmd < command_size
    → set_command cmd ≡ cmd ++ replicate (suc (11 - length cmd)) 0
unfolding set_command
set_command-short cmd h =
    let n : command_size - length cmd ≡ suc (11 - length cmd) = omega arith in
    rw (take_past 12 cmd (omega arith), n)

pub record IsMessageHeader (h : MessageHeader) : Type 0 where
  pub magic_fits : h.magic < 2 ^ 32
  pub command_length : length h.command ≡ command_size
  pub valid : is_valid_command false h.command ≡ true
  pub small : h.length ≤ max_protocol_message_length
  pub checksum_length : length h.checksum ≡ 4

read-write : (v : ℕ) (rest : List ℕ) → v < 2 ^ 32 → read_le32 (write_le32 v ++ rest) ≡ v
unfolding read_le32 write_le32
read-write v rest h = from_le-le_bytes 4 v h

module _ (h : MessageHeader) (v : IsMessageHeader h) where
  abbrev after_command : List ℕ
  after_command = write_le32 h.length ++ h.checksum

  header_length : length (serialize_header h) ≡ 24
  unfolding serialize_header write_le32
  header_length =
      omega (arith, v.command_length, v.checksum_length, length-append {0} h.command after_command)

  read_command : take 12 (drop 4 (serialize_header h)) ≡ h.command
  unfolding serialize_header
  read_command = take_exact 12 h.command after_command v.command_length

  read_length : read_le32 (drop 16 (serialize_header h)) ≡ h.length
  unfolding serialize_header
  read_length =
      ap read_le32 (drop_exact 12 h.command after_command v.command_length)
      ∙ read-write h.length h.checksum (omega (arith, v.small))

  read_checksum : take 4 (drop 20 (serialize_header h)) ≡ h.checksum
  unfolding serialize_header write_le32
  read_checksum =
      ap (take 4) (drop_past 12 4 h.command after_command v.command_length)
      ∙ take_all 4 h.checksum v.checksum_length

  read_magic : read_le32 (serialize_header h) ≡ h.magic
  unfolding serialize_header
  read_magic = read-write h.magic (h.command ++ after_command) v.magic_fits

  -- A valid header is parsed back.
  deserialize_header-serialize_header : deserialize_header (serialize_header h) ≡ some h
  unfolding deserialize_header
  deserialize_header-serialize_header =
      let long_enough : ltb (length (serialize_header h)) 24 ≡ false =
        ground (arith, header_length) in
      let small : ltb max_protocol_message_length h.length ≡ false = ground (arith, v.small) in
      simp (long_enough, read_command, v.valid, read_length, small, read_checksum, read_magic)

module _ (sha256 : List ℕ → List ℕ) where
  -- The header made for a printable command of at most 11 bytes and a payload of at most 4 MB is
  -- parsed back, with the command, the length and the checksum of the payload.
  pub deserialize_header-create_header :
      (magic : ℕ) (command payload : List ℕ)
      → magic < 2 ^ 32
      → All IsPrintable command
      → length command < command_size
      → length payload ≤ max_protocol_message_length
      → length (sha256 (sha256 payload)) ≡ 32
      → let h = create_header sha256 magic command payload in
        (deserialize_header (serialize_header h) ≡ some h)
        × (get_command h.command ≡ command)
        × (h.length ≡ length payload)
        × (h.checksum ≡ take 4 (sha256 (sha256 payload)))
  unfolding create_header compute_checksum
  deserialize_header-create_header magic command payload m p short small hash =
      let set = set_command-short command short in
      let n = 11 - length command in
      let size : length payload % 2 ^ 32 ≡ length payload = omega arith in
      (
        deserialize_header-serialize_header (create_header sha256 magic command payload) (record {
          magic_fits = m;
          command_length = rw set (
              omega (
                arith,
                length-append {0} command (replicate (suc n) 0),
                length-replicate {A = ℕ} (suc n) 0,
              ));
          valid = rw set (padded-is_valid command n p);
          small = omega arith;
          checksum_length = omega (arith, length-take 4 (sha256 (sha256 payload)), hash);
        }),
        rw set (get_command_padded command n p),
        size,
        refl,
      )

accepted :
    (bytes : List ℕ) (h : MessageHeader)
    → deserialize_header bytes ≡ some h
    → (is_valid_command false (take command_size (drop 4 bytes)) ≡ true)
      × (take command_size (drop 4 bytes) ≡ h.command)
      × (h.length ≤ max_protocol_message_length)
unfolding deserialize_header
accepted bytes h =
    if_elim Accepted (ltb (length bytes) message_header_size) (λ _ e. cc)
      λ _.
        if_elim Accepted (not (is_valid_command false command)) (λ _ e. cc)
          λ valid.
            if_elim Accepted (ltb max_protocol_message_length size) (λ _ e. cc)
              λ small e. (
                not-false (is_valid_command false command) valid,
                injected e (λ x. command ≡ x.command) refl,
                injected e (λ x. x.length ≤ max_protocol_message_length)
                    (ltb-false max_protocol_message_length size small),
              )
  where
    command : List ℕ
    command = take command_size (drop 4 bytes)

    size : ℕ
    size = read_le32 (drop 16 bytes)

    Accepted : Option MessageHeader → Type 0
    Accepted r =
        r ≡ some h
        → (is_valid_command false command ≡ true)
          × (command ≡ h.command)
          × (h.length ≤ max_protocol_message_length)

    injected : {x : MessageHeader} → some x ≡ some h → (P : MessageHeader → Type 0) → P x → P h
    injected {x} e P p = let q : x ≡ h = cc in subst P q p

-- Whatever bytes come in, the header of a message that is accepted announces at most 4 MB, and its
-- command is printable text followed by zeros alone, at least one.
pub deserialize_header_limit :
    (bytes : List ℕ) (h : MessageHeader)
    → deserialize_header bytes ≡ some h
    → (h.length ≤ max_protocol_message_length) × IsPadded h.command
deserialize_header_limit bytes h e =
    let (valid, same, small) = accepted bytes h e in
    (small, rw (← same) (is_valid-IsPadded (take command_size (drop 4 bytes)) valid))
