-- ===== src/Message/Print.antt =====
-- server/Message.hpp, `message_s::print`: what is written to the output, as one text. `none` is a read
-- outside the message.
use distributed_computing_fr.Prelude.{
  ℕ, zero, suc, ◌+◌, Option, none, some, List, [], ◌∷◌, ◌++◌, drop, ◌==◌, if◌then◌else◌, ◌>>=◌,
  read32, le32,
}
use distributed_computing_fr.Message.{
  Message, BlockInfo, MessageType, undefined, config, config_resp, data_input, type_code, success,
  status_code, resp_status, config_input_size, config_output_size, config_num_blocks,
  get_block_info, get_rbf_offset, get_rbf_size, get_data_size, sizeof_config, sizeof_data,
}
use distributed_computing_fr.Message.Text.{codes, newline, tab, to_hex, bytes_to_hex, print_bytes}
pub mod Parts
pub mod Reads
pub mod Tests

-- `decimal` is how the output shows a number.
module _ (decimal : ℕ → List ℕ) where
  -- The lines of a field of four bytes, such as `prefix << "iSize:" << "\t" << ...`.
  unfoldable pub print_field : List ℕ → List ℕ → ℕ → List ℕ
  print_field prefix label val =
      prefix
      ++ (label
          ++ (tab
              ++ (bytes_to_hex (le32 val)
                  ++ (codes " (" ++ (decimal val ++ (codes ")" ++ newline))))))

  unfoldable pub type_name : ℕ → List ℕ
  type_name type =
      if type == type_code undefined
      then codes " (UNDEFINED)"
      else if type == type_code config
      then codes " (CONFIG)"
      else if type == type_code config_resp
      then codes " (CONFIG_RESP)"
      else if type == type_code data_input
      then codes " (DATA)"
      else codes " (UNKNOWN)"

  -- The lines of the block at an index.
  unfoldable pub print_block : List ℕ → ℕ → BlockInfo → List ℕ
  print_block prefix i blk =
      prefix
      ++ (codes "Blk #"
          ++ (decimal (i + 1)
              ++ (newline
                  ++ (print_field prefix (codes "cBase:") blk.control_base
                      ++ (print_field prefix (codes "iBase:") blk.input_base
                          ++ print_field prefix (codes "oBase:") blk.output_base)))))

  -- The loop over the blocks, with so many still to come from the index `i` on.
  unfoldable pub print_blocks : List ℕ → Message → ℕ → ℕ → Option (List ℕ)
  print_blocks prefix m zero i = some []
  print_blocks prefix m (suc k) i = do
    blk ← get_block_info m i
    rest ← print_blocks prefix m k (i + 1)
    some (print_block prefix i blk ++ rest)

  -- What is written of a configuration, with the lines of its blocks and of its bit stream.
  abbrev pub config_text : List ℕ → ℕ → ℕ → ℕ → List ℕ → List ℕ → List ℕ
  config_text prefix input_size output_size num_blocks blocks rbf =
      print_field prefix (codes "iSize:") input_size
      ++ (print_field prefix (codes "oSize:") output_size
          ++ (print_field prefix (codes "nBlk:") num_blocks
              ++ (blocks ++ (prefix ++ (codes "RBF:" ++ (newline ++ rbf))))))

  unfoldable pub print_config : List ℕ → Message → Option (List ℕ)
  print_config prefix m = do
    input_size ← config_input_size m
    output_size ← config_output_size m
    num_blocks ← config_num_blocks m
    blocks ← print_blocks prefix m num_blocks 0
    offset ← get_rbf_offset m
    rbf_size ← get_rbf_size m
    rbf ← print_bytes (drop (sizeof_config + offset) m.payload) rbf_size 16 (prefix ++ tab)
    some (config_text prefix input_size output_size num_blocks blocks rbf)

  abbrev pub status_text : List ℕ → ℕ → List ℕ
  status_text prefix status =
      prefix
      ++ (codes "Status:"
          ++ (tab
              ++ (bytes_to_hex (status ∷ [])
                  ++ (codes " ("
                      ++ ((if status == status_code success then codes "SUCCESS" else codes "ERROR")
                          ++ (codes ")" ++ newline))))))

  unfoldable pub print_config_resp : List ℕ → Message → Option (List ℕ)
  print_config_resp prefix m = do status ← resp_status m; some (status_text prefix status)

  abbrev pub data_text : List ℕ → ℕ → List ℕ → List ℕ
  data_text prefix id rows =
      prefix
      ++ (codes "ID:"
          ++ (tab
              ++ (bytes_to_hex (le32 id)
                  ++ (codes " (0x"
                      ++ (to_hex 4 id
                          ++ (codes ")"
                              ++ (newline ++ (prefix ++ (codes "Data:" ++ (newline ++ rows))))))))))

  unfoldable pub print_data : List ℕ → Message → Option (List ℕ)
  print_data prefix m = do
    id ← read32 m.payload 0
    rows ← print_bytes (drop sizeof_data m.payload) (get_data_size m) 4 (prefix ++ tab)
    some (data_text prefix id rows)

  -- The first lines of every message.
  unfoldable pub print_header : List ℕ → Message → List ℕ
  print_header prefix m =
      prefix
      ++ (codes "Type:"
          ++ (tab
              ++ (bytes_to_hex (m.header.type ∷ m.header.reserved)
                  ++ (type_name m.header.type
                      ++ (newline ++ print_field prefix (codes "Size:") m.header.payload_size)))))

  -- The second `switch`.
  unfoldable pub print_payload : List ℕ → Message → Option (List ℕ)
  print_payload prefix m =
      if m.header.type == type_code undefined
      then (do
        rows ← print_bytes m.payload m.header.payload_size 4 (prefix ++ tab)
        some (prefix ++ (codes "Data:" ++ rows)))
      else if m.header.type == type_code config
      then print_config prefix m
      else if m.header.type == type_code config_resp
      then print_config_resp prefix m
      else if m.header.type == type_code data_input
      then print_data prefix m
      else some []

  unfoldable pub print : List ℕ → Message → Option (List ℕ)
  print prefix m = do body ← print_payload prefix m; some (print_header prefix m ++ body)
