-- ===== src/Dns/Name.antt =====
-- dns.c: names on the wire, `install_domain_name` and `decode_enc_str`. A message is the buffer of
-- 512 bytes that it stands in, and a pointer into it an offset; what is read or written outside a
-- buffer is `crash`.
pub mod Encode
pub mod Array
pub mod Decode
use h2_client_proxy.Base.{
  Outcome, ok, crash, stuck, ◌>>=◌, from_option, ℕ, zero, suc, ◌+◌, ◌-◌, ◌*◌, ◌%◌, ◌==◌, ◌||◌, Bool,
  true, false, Option, none, some, List, [], ◌∷◌, ◌++◌, ltb, leb, if◌then◌else◌, length, take, drop,
  set, get_elem?, Bytes, codes, c_str,
}

-- `while (*end != '.' && *end != '\0') end++`: the length of the label that starts here.
label_length : Bytes → ℕ
label_length [] = 0
label_length (c ∷ cs) = let rest = label_length cs in if c == b'.' then 0 else suc rest

-- The loop over the text: each dot becomes the length of the label behind it, as an unsigned char.
unfoldable pub put_lengths : Bytes → Bytes
unfolding label_length
put_lengths [] = 0 ∷ []
put_lengths (c ∷ cs) = (if c == b'.' then label_length cs % 256 else c) ∷ put_lengths cs

-- The bytes that stand at `p` afterwards, up to the pointer that is returned.
unfoldable pub install_domain_name : Bytes → Bytes
unfolding put_lengths
install_domain_name domain_name = put_lengths (b'.' ∷ c_str domain_name)

-- `strlen`
abbrev pub str_len : Bytes → ℕ
str_len buf = length (c_str buf)

-- `memcpy(buf + off, src, length src)` into an array.
unfoldable pub write_at : ℕ → Bytes → Bytes → Option Bytes
write_at off src buf =
    if leb (off + length src) (length buf)
    then some (take off buf ++ (src ++ drop (off + length src) buf))
    else none

-- `memcpy(buf + strlen(buf), p, len); strcat(buf, ".")`, with `p` behind the length byte.
unfoldable pub append_label : Bytes → ℕ → ℕ → Bytes → Option Bytes
append_label msg p len buf =
    if leb (p + len) (length msg)
    then elim (write_at (str_len buf) (take len (drop p msg)) buf) [
      | none ↦ none
      | some buf' ↦ write_at (str_len buf') (b'.' ∷ 0 ∷ []) buf'
    ]
    else none

-- `buf[strlen(buf) - 1] = 0`, which writes before an empty buffer.
unfoldable pub drop_last : Bytes → Option Bytes
drop_last buf =
    if str_len buf == 0
    then none
    else if ltb (str_len buf - 1) (length buf)
    then some (set buf (str_len buf - 1) 0)
    else none

-- The pointer behind the name, and `buf`. A byte 0xc0 makes the offset `(*p & 0x3f) * 255 + p[1]`
-- out of the next byte. One unit of fuel for each label, pointer and end.
unfoldable pub decode_enc_str : ℕ → Bytes → ℕ → Bytes → Outcome (ℕ × Bytes)
unfolding from_option
decode_enc_str zero msg p buf = stuck
decode_enc_str (suc fuel) msg p buf = elim (get_elem? msg p) [
  | none ↦ crash
  | some len ↦ elim (len == 0) [
    | true ↦ from_option (drop_last buf) >>= λ buf'. ok (p + 1, buf')
    | false ↦ elim (len == 0xc0) [
      | true ↦ from_option (get_elem? msg (p + 1)) >>= λ low.
          decode_enc_str fuel msg ((0xc0 % 64) * 255 + low) buf >>= λ r. ok (p + 2, r.1)
      | false ↦ from_option (append_label msg (p + 1) len buf) >>= λ buf'.
          decode_enc_str fuel msg (p + 1 + len) buf'
    ]
  ]
]
