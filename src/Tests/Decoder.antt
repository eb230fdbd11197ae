-- ===== src/Tests/Decoder.antt =====
-- Examples for the decoder of pkg/decoder/decoder.go.
use logical_backup.Common.{◌≡◌, refl, ◌↔◌, true, false, [], ◌∷◌, ◌++◌, inl, inr, arith}
use logical_backup.Common.Bytes.{Bytes, big_endian}
use logical_backup.Common.Outcome.{ok, err}
use logical_backup.Message.{Message, update, origin, null_value, toasted_value, text_value, raw_of}
use logical_backup.Decoder.{
  parse, parse_body, parse_origin, uint64, uint, string, next, pure, ◌>>=◌, unknown_message_type,
}
use logical_backup.Decoder.Wire.{encode, with_raw, IsWire}
use logical_backup.Decoder.RoundTrip.{parse-encode}
use logical_backup.Decoder.Errors.{raw_of-parse, parse_err_iff, IsUnknown}

-- An update with its old key, a toasted value and a null.
abbrev sample : Message
sample = update (record {
  raw = [];
  relation_oid = 16385;
  is_key = true;
  is_old = false;
  is_new = true;
  old_row = record { kind = text_value; value = b'4' ∷ b'2' ∷ [] } ∷ [];
  new_row =
      record { kind = text_value; value = b'4' ∷ b'3' ∷ [] }
      ∷ record { kind = toasted_value; value = [] }
      ∷ record { kind = null_value; value = [] }
      ∷ [];
})

sample-IsWire : IsWire sample
sample-IsWire = (
  omega arith,
  (refl, (omega arith, (inr (inr (refl, omega arith)), tt)), omega arith),
  refl,
  (omega arith, (inr (inr (refl, omega arith)), (inr (inl (refl, refl)), (inl (refl, refl), tt)))),
)

parse-encode_example :
    parse (encode sample ++ 0 ∷ []) ≡ ok (with_raw (encode sample ++ 0 ∷ []) sample)
parse-encode_example = parse-encode sample (0 ∷ []) sample-IsWire

raw_of-parse_example : raw_of (with_raw (encode sample ++ []) sample) ≡ encode sample ++ []
raw_of-parse_example =
    raw_of-parse (encode sample ++ []) (with_raw (encode sample ++ []) sample)
      (parse-encode sample [] sample-IsWire)

parse_err_iff_example :
    (parse (b'Z' ∷ 1 ∷ []) ≡ err (unknown_message_type b'Z'))
    ↔ ((unknown_message_type b'Z' ≡ unknown_message_type b'Z') × IsUnknown b'Z')
parse_err_iff_example = parse_err_iff b'Z' (1 ∷ []) (unknown_message_type b'Z')

-- An origin message, and what is read from it.
abbrev origin_bytes : Bytes
origin_bytes = b'O' ∷ 0 ∷ 0 ∷ 0 ∷ 0 ∷ 0 ∷ 0 ∷ 1 ∷ 64 ∷ b'a' ∷ 0 ∷ []

abbrev origin_read : Message
origin_read = origin (record { raw = origin_bytes; lsn = 320; name = b'a' ∷ [] })

parse-origin_bytes : parse origin_bytes ≡ ok origin_read
unfolding parse parse_body parse_origin uint64 uint string next pure ◌>>=◌ big_endian
parse-origin_bytes = refl
