-- ===== src/Net/Envelope.antt =====
-- network/message.cpp and network/protocol.cpp: the 24-byte header in front of every message. The
-- header that a failed parse leaves half filled is not used by the callers, and is `none`.
pub mod Commands
mod Tests
use coinbasechain.Base.{
  ℕ, ◌+◌, ◌-◌, ◌^◌, ◌%◌, ◌≡◌, Bool, true, false, not, ◌&&◌, ◌||◌, Option, none, some, List, [], ◌∷◌,
  ◌++◌, ltb, leb, ◌==◌, if◌then◌else◌, length, take, drop, replicate,
}
use coinbasechain.Base.Endian.{write_le32, read_le32}

abbrev pub message_header_size : ℕ
message_header_size = 24

abbrev pub command_size : ℕ
command_size = 12

abbrev pub max_protocol_message_length : ℕ
max_protocol_message_length = 4000000

pub record MessageHeader : Type 0 where
  pub magic : ℕ
  pub command : List ℕ
  pub length : ℕ
  pub checksum : List ℕ

unfoldable pub get_command : List ℕ → List ℕ
get_command [] = []
get_command (c ∷ cs) = let rest = get_command cs in if c == 0 then [] else c ∷ rest

unfoldable pub set_command : List ℕ → List ℕ
set_command cmd = take command_size cmd ++ replicate (command_size - length cmd) 0

module _ (sha256 : List ℕ → List ℕ) where
  unfoldable pub compute_checksum : List ℕ → List ℕ
  compute_checksum payload = take 4 (sha256 (sha256 payload))

  unfoldable pub create_header : ℕ → List ℕ → List ℕ → MessageHeader
  unfolding compute_checksum set_command
  create_header magic command payload = record {
    magic = magic;
    command = set_command command;
    length = length payload % 2 ^ 32;
    checksum = compute_checksum payload;
  }

unfoldable pub serialize_header : MessageHeader → List ℕ
unfolding write_le32
serialize_header h = write_le32 h.magic ++ (h.command ++ (write_le32 h.length ++ h.checksum))

-- The loop over the command's bytes, with found_nul.
unfoldable pub is_valid_command : Bool → List ℕ → Bool
is_valid_command found_nul [] = found_nul
is_valid_command found_nul (c ∷ cs) =
    let rest = is_valid_command (found_nul || c == 0) cs in
    if not found_nul
    then (if c == 0 then rest else if ltb c 0x20 || ltb 0x7e c then false else rest)
    else (if not (c == 0) then false else rest)

unfoldable pub deserialize_header : List ℕ → Option MessageHeader
unfolding is_valid_command read_le32
deserialize_header bytes =
    if ltb (length bytes) message_header_size
    then none
    else let command = take command_size (drop 4 bytes) in
      if not (is_valid_command false command)
      then none
      else let size = read_le32 (drop 16 bytes) in
        if ltb max_protocol_message_length size
        then none
        else some (record {
          magic = read_le32 bytes;
          command = command;
          length = size;
          checksum = take 4 (drop 20 bytes);
        })
