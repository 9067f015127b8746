-- ===== src/Pairing/Tests.antt =====
-- The theorem on pairing codes with codecs that know one answer each.
use rust_ssh.Prelude.{
  ◌≡◌, ◌∷◌, ◌++◌, Text, as_bytes, refl, [], false, none, some, replicate, codes, strip_prefix, trim,
  len, is_whitespace,
}
use rust_ssh.Pairing.{
  code_prefix, ok, encode, check_address, check_token, Config, WireConfig, Codecs, decode,
  without_whitespace, validate_server, decode_public_key, validate_token, validate_optional,
}
use rust_ssh.Pairing.RoundTrip.{decode-encode}
use rust_ssh.Pairing.Sample.{sample_codecs, sample_codecs-IsFaithful, base64_encode, all-IsByte}
use rust_ssh.Pairing.Laws.{IsUsable, decode-IsUsable}

abbrev wire : WireConfig
wire = record {
  server = codes "s:1";
  server_key = codes "k";
  token = codes "0123456789abcdef0123456789abcdef";
  device_id = none;
}

abbrev codecs : Codecs
codecs = record {
  parse_address = λ t. some (record { port = 1; is_unspecified = false });
  hex_encode = λ bs. [];
  hex_decode = λ t. some (replicate 32 1);
  base64_encode = λ bs. [];
  base64_decode = λ t. some [];
  to_vec = λ w. some [];
  from_slice = λ bs. some wire;
}

abbrev paired : Config
paired = record {
  server = codes "s:1";
  server_key = replicate 32 1;
  token = codes "0123456789abcdef0123456789abcdef";
  device_id = none;
}

decode-IsUsable_example : IsUsable codecs paired
unfolding decode strip_prefix without_whitespace is_whitespace validate_server decode_public_key
    validate_token len trim validate_optional
decode-IsUsable_example = decode-IsUsable codecs (codes "rssh1: QUJD") paired refl

abbrev paired_code : Text
paired_code = code_prefix ++ base64_encode (1 ∷ [])

abbrev spaced : Config
spaced = record paired { server = codes " s:1 " }

abbrev spaced_wire : WireConfig
spaced_wire = record wire { server_key = replicate 32 1 }

decode-encode_example : decode (sample_codecs spaced_wire) paired_code ≡ ok paired
unfolding encode validate_server check_address validate_token check_token validate_optional len trim
    as_bytes is_whitespace
decode-encode_example =
    decode-encode (sample_codecs spaced_wire) (sample_codecs-IsFaithful spaced_wire) spaced
      paired_code (all-IsByte (replicate 32 1) refl) refl refl
