-- ===== src/Examples/Signing.antt =====
-- A key in a container, with a signature that is the message itself.
use pcscid.Common.{
  [], ◌∷◌, ◌++◌, some, Bytes, codes, replicate, length, drop, ok, ◌≡◌, refl, arith, bytes_eq,
}
use pcscid.Signer.Accepted.{parse_open_ssh_ed25519-Usable}
use pcscid.Signer.Keys.{Usable, container, private_section, parse_blob-container}
use pcscid.Signer.{
  Crypto, parse_blob, parse_open_ssh_ed25519, open_ssh_armor_begin, open_ssh_armor_end,
}
use pcscid.Wire.Words.{IsWord}

abbrev plain : Crypto
plain = record {
  sha512 = λ m. replicate 64 0;
  public_of = λ key. drop 32 key;
  sign = λ key m. m;
  verify = λ public m signature. bytes_eq m signature;
  encode_base64 = λ m. m;
  decode_base64 = λ m. some m;
}

abbrev key : Bytes
key = replicate 64 7

key-Usable : Usable plain key
unfolding bytes_eq
key-Usable = (refl, refl)

section-IsWord :
    IsWord (length (container [] 1 (codes "pub") (private_section 5 key (codes "me")) []))
unfolding pcscid.Signer.append_ssh_string
section-IsWord = omega arith

parse_blob-container_example :
    parse_blob plain (container [] 1 (codes "pub") (private_section 5 key (codes "me")) []) ≡ ok key
parse_blob-container_example =
    parse_blob-container plain key [] (codes "pub") (codes "me") [] 1 5 key-Usable (omega arith)
      (omega arith) (omega arith) section-IsWord

-- The same key in a file, where base64 is the identity.
abbrev key_file : Bytes
key_file =
    open_ssh_armor_begin
    ++ (10 ∷ container [] 1 (codes "pub") (private_section 5 key (codes "me")) []
        ++ (10 ∷ open_ssh_armor_end))

key_file_parsed : parse_open_ssh_ed25519 plain key_file ≡ ok key
unfolding parse_open_ssh_ed25519 pcscid.Signer.append_ssh_string bytes_eq pcscid.Signer.read_bytes
    pcscid.Signer.ssh_string pcscid.Signer.parse_private pcscid.Signer.check_key
key_file_parsed = refl

parse_open_ssh_ed25519-Usable_example : Usable plain key
parse_open_ssh_ed25519-Usable_example =
    parse_open_ssh_ed25519-Usable plain key_file key key_file_parsed
