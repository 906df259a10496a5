-- ===== src/L7/Patterns.antt =====
-- internal/l7/patterns.go: the tests of a first payload for each protocol. A payload is a list of
-- bytes, numbers below 256.
use route_x_reverse_proxy.Common.{
  ℕ, suc, ◌+◌, ◌*◌, ◌%◌, ◌^◌, Bool, true, false, ◌&&◌, ◌||◌, List, [], ◌∷◌, String, ltb, leb,
  if◌then◌else◌, ◌==◌, string_eq, nat_eq, length, take, drop, retain,
}
use route_x_reverse_proxy.Net.{bytes_equal}

-- The loop of `readVarInt` from the byte at `i`. The digits of seven bits do not overlap, so the
-- OR of the source is the sum; `b & 0x7F` is `b % 128`, and `b & 0x80 == 0` is `b < 128`.
unfoldable pub read_digits : ℕ → ℕ → ℕ → List ℕ → ℕ × ℕ
read_digits i position value [] = (0, 0)
read_digits i position value (b ∷ bytes) =
    let value' = value + b % 128 * 2 ^ position in
    let more = read_digits (i + 1) (position + 7) value' bytes in
    if ltb i 5 then (if ltb b 128 then (value', i + 1) else more) else (0, 0)

-- The value and the number of bytes read; (0, 0) where the digits do not end in five bytes.
unfoldable pub read_var_int : List ℕ → ℕ × ℕ
read_var_int bytes = read_digits 0 0 0 bytes

unfoldable pub validate_minecraft_java : List ℕ → Bool
validate_minecraft_java payload =
    let (announced, bytes_read) = read_var_int payload in
    let packet_id = (read_var_int (drop bytes_read payload)).0 in
    if ltb (length payload) 3
    then false
    else if bytes_read == 0 || ltb announced 1
    then false
    else if ltb (length payload) (bytes_read + 1)
    then false
    else packet_id == 0 || packet_id == 254

abbrev pub offline_magic : List ℕ
offline_magic =
    0 ∷ 255 ∷ 255 ∷ 0 ∷ 254 ∷ 254 ∷ 254 ∷ 254 ∷ 253 ∷ 253 ∷ 253 ∷ 253 ∷ 18 ∷ 52 ∷ 86 ∷ 120 ∷ []

unfoldable pub validate_minecraft_bedrock : List ℕ → Bool
validate_minecraft_bedrock [] = false
validate_minecraft_bedrock (pkt_id ∷ body) =
    let size = suc (length body) in
    if pkt_id == 1
    then leb 25 size && bytes_equal (take 16 (drop 9 (pkt_id ∷ body))) offline_magic
    else if pkt_id == 5
    then leb 28 size
    else if pkt_id == 7
    then leb 34 size
    else if leb 128 pkt_id && leb pkt_id 143
    then leb 4 size
    else false

abbrev printable : ℕ → Bool
printable b = (leb 32 b && leb b 126) || b == 13 || b == 10 || b == 9

-- `printable / len > 0.7` of the doubles: the nearest doubles of two fractions are ordered as the
-- fractions at these sizes.
unfoldable pub is_textish_payload : List ℕ → Bool
is_textish_payload payload =
    ltb 0 (length payload) && ltb (7 * length payload) (10 * length (retain printable payload))

abbrev pub has_prefix : List ℕ → List ℕ → Bool
has_prefix payload prefix = bytes_equal (take (length prefix) payload) prefix

-- "GET ", "POST", "HEAD" and "info\n".
unfoldable pub validate_five_m : List ℕ → Bool
unfolding bytes_equal
validate_five_m payload =
    if ltb (length payload) 4
    then false
    else if has_prefix payload (71 ∷ 69 ∷ 84 ∷ 32 ∷ [])
        || has_prefix payload (80 ∷ 79 ∷ 83 ∷ 84 ∷ [])
        || has_prefix payload (72 ∷ 69 ∷ 65 ∷ 68 ∷ [])
    then true
    else if has_prefix payload (105 ∷ 110 ∷ 102 ∷ 111 ∷ 10 ∷ [])
    then true
    else is_textish_payload payload

unfoldable pub validate_g_mod : List ℕ → Bool
unfolding bytes_equal
validate_g_mod payload =
    let known = has_prefix (drop 4 payload) in
    if ltb (length payload) 5
    then false
    else if has_prefix payload (255 ∷ 255 ∷ 255 ∷ 255 ∷ [])
        && (known (84 ∷ []) || known (85 ∷ []) || known (87 ∷ []) || known (86 ∷ []))
    then true
    else is_textish_payload payload

-- `ProtocolDetector.Check` for a mode.
unfoldable pub check_mode : String → List ℕ → Bool
check_mode mode payload =
    if mode == "minecraft-java"
    then validate_minecraft_java payload
    else if mode == "minecraft-bedrock"
    then validate_minecraft_bedrock payload
    else if mode == "fivem"
    then validate_five_m payload
    else if mode == "gmod"
    then validate_g_mod payload
    else true
