-- ===== src/Kv/Codec.antt =====
-- kv/util/codec/codec.go: byte strings in groups of eight, so that encoded strings are in the order of
-- the strings. A byte is a number below 256. The errors are named by what they report.
pub mod Groups
pub mod RoundTrip
pub mod Order
use tiny_kv_practice.Prelude.{
  ℕ, zero, suc, ◌+◌, ◌-◌, ◌/◌, Bool, true, false, ◌&&◌, not, Option, none, some, List, [], ◌∷◌,
  ◌++◌, ltb, leb, ◌==◌, if◌then◌else◌, length, get_elem?, take, drop, replicate,
}

-- `encGroupSize`, `encMarker` and `encPad`
abbrev pub enc_group_size : ℕ
enc_group_size = 8

abbrev pub enc_marker : ℕ
enc_marker = 255

abbrev pub enc_pad : ℕ
enc_pad = 0

-- The loop of `EncodeBytes`, with the number of its rounds and the data from `idx` on.
unfoldable pub encode_groups : ℕ → List ℕ → List ℕ
encode_groups zero rest = []
encode_groups (suc rounds) rest =
    let pad_count = if leb enc_group_size (length rest) then 0 else enc_group_size - length rest in
    take enc_group_size rest
    ++ replicate pad_count enc_pad
    ++ (enc_marker - pad_count) ∷ encode_groups rounds (drop enc_group_size rest)

-- `EncodeBytes`: `idx` goes from 0 to the length in steps of eight.
unfoldable pub encode_bytes : List ℕ → List ℕ
encode_bytes bytes = encode_groups (length bytes / enc_group_size + 1) bytes

pub data CodecError : Type 0 where
  insufficient_bytes invalid_marker invalid_padding : CodecError

-- A result, or an error.
pub data Decoded {ℓ} (A : Type ℓ) : Type ℓ where
  ok : A → Decoded A
  err : CodecError → Decoded A

unfoldable pub all_pads : List ℕ → Bool
all_pads [] = true
all_pads (v ∷ vs) = v == enc_pad && all_pads vs

-- The loop of `DecodeBytes`: the rounds that the bytes may still fill, the data so far, and the bytes.
unfoldable pub decode_groups : ℕ → List ℕ → List ℕ → Decoded (List ℕ × List ℕ)
decode_groups zero bytes b = err insufficient_bytes
decode_groups (suc rounds) bytes b =
    let group = take enc_group_size b in
    let after = drop enc_group_size b in
    elim after [
      | [] ↦ err insufficient_bytes
      | marker ∷ rest ↦
          let pad_count = enc_marker - marker in
          let real_group_size = enc_group_size - pad_count in
          let more = decode_groups rounds (bytes ++ take real_group_size group) rest in
          if ltb enc_group_size pad_count
          then err invalid_marker
          else if pad_count == 0
          then more
          else if all_pads (drop real_group_size group)
          then ok (rest, bytes ++ take real_group_size group)
          else err invalid_padding
    ]

-- `DecodeBytes`: the bytes behind the encoding, and the data. Each round takes nine bytes.
unfoldable pub decode_bytes : List ℕ → Decoded (List ℕ × List ℕ)
decode_bytes b = decode_groups (length b / (enc_group_size + 1)) [] b
