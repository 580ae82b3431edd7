-- ===== src/Signer/Accepted.antt =====
-- Which keys a file may hold.
use pcscid.Common.{true, Bytes, codes, ◌≡◌, subst, arith, drop, bytes_eq_iff, ok, bind-eq-ok}
use pcscid.Signer.Keys.{Usable}
use pcscid.Signer.{
  Crypto, SshReader, reader_of, read_bytes, read_uint32, ssh_string, check_key, parse_private,
  parse_blob, decode_open_ssh_armor, parse_open_ssh_ed25519,
}

module _ (crypto : Crypto) where
  check_key-Usable :
      (public private key : Bytes) → check_key crypto public private ≡ ok key → Usable crypto key
  unfolding check_key
  check_key-Usable public private key h =
      let same : drop 32 private ≡ public =
        (bytes_eq_iff (drop 32 private) public).0 (ground arith) in
      let verified : crypto.verify public (codes "pcscid/ssh-key-check")
            (crypto.sign private (codes "pcscid/ssh-key-check"))
          ≡ true =
        ground arith in
      let own : private ≡ key = ground arith in
      subst (Usable crypto) own (ground arith, rw same verified)

  parse_private-Usable :
      (p : SshReader) (key : Bytes) → parse_private crypto p ≡ ok key → Usable crypto key
  unfolding parse_private
  parse_private-Usable p key h =
      let (check2, p2) = read_uint32 (read_uint32 p).1 in
      let (key_type, p3) = ssh_string p2 in
      let (public, p4) = ssh_string p3 in
      let (private, p5) = ssh_string p4 in
      let checked : check_key crypto public private ≡ ok key = ground arith in
      check_key-Usable public private key checked

  parse_blob-Usable : (blob key : Bytes) → parse_blob crypto blob ≡ ok key → Usable crypto key
  unfolding parse_blob
  parse_blob-Usable blob key h =
      let (cipher, r2) = ssh_string (read_bytes 15 (reader_of blob)).1 in
      let (kdf, r3) = ssh_string r2 in
      let (options, r4) = ssh_string r3 in
      let (n, r5) = read_uint32 r4 in
      let (public, r6) = ssh_string r5 in
      let (rest, r7) = ssh_string r6 in
      let parsed : parse_private crypto (reader_of rest) ≡ ok key = ground arith in
      parse_private-Usable (reader_of rest) key parsed

-- Whatever a key file holds, a key that is read from it has 64 bytes, and its signature of the test
-- text verifies against its own second half.
pub parse_open_ssh_ed25519-Usable :
    (crypto : Crypto) (file key : Bytes)
    → parse_open_ssh_ed25519 crypto file ≡ ok key
    → Usable crypto key
unfolding parse_open_ssh_ed25519
parse_open_ssh_ed25519-Usable crypto file key h =
    let (blob, opened, parsed) =
      bind-eq-ok (decode_open_ssh_armor crypto file) (λ blob. parse_blob crypto blob) h in
    parse_blob-Usable crypto blob key parsed
