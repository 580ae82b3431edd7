-- ===== src/Signer/Keys.antt =====
-- A key that was written to a file is read back.
use pcscid.Common.{
  ℕ, ◌%◌, ◌≤◌, true, false, ◌++◌, Bytes, codes, ◌≡◌, refl, ap, ◌∙◌, arith, length, length-append,
  drop, take_of_append, drop_of_append, ltb, ◌==◌, bytes_eq, bytes_eq_iff, ok,
}
use pcscid.Signer.{
  Crypto, reader_of, read_bytes, read_uint32, ssh_string, word_of, string_of, put_be32, be32,
  append_ssh_string, parse_private, parse_blob, check_key, open_ssh_key_magic,
  key_algorithm_ed25519,
}
use pcscid.Wire.Words.{IsWord}

read_bytes-append :
    (n : ℕ) (s rest : Bytes)
    → length s ≡ n
    → read_bytes n (reader_of (s ++ rest)) ≡ (s, reader_of rest)
unfolding read_bytes
read_bytes-append n s rest h =
    let enough : ltb (length (s ++ rest)) n ≡ false = ground (arith, length-append {0} s rest, h) in
    rw enough (λ i. (take_of_append n s rest h i, reader_of (drop_of_append n s rest h i)))

be32-put : (n : ℕ) → IsWord n → be32 (put_be32 n) ≡ n
unfolding be32
be32-put n h = omega (arith, h)

read_uint32-put :
    (n : ℕ) (rest : Bytes)
    → IsWord n
    → read_uint32 (reader_of (put_be32 n ++ rest)) ≡ (n, reader_of rest)
unfolding read_uint32
read_uint32-put n rest h =
    ap word_of (read_bytes-append 4 (put_be32 n) rest refl) ∙ λ i. (be32-put n h i, reader_of rest)

-- A string that appendSSHString wrote, in front of less than four gibibytes.
ssh_string-append :
    (s rest : Bytes)
    → IsWord (length (append_ssh_string s ++ rest))
    → ssh_string (reader_of (append_ssh_string s ++ rest)) ≡ (s, reader_of rest)
unfolding ssh_string append_ssh_string
ssh_string-append s rest h =
    let all = length-append {0} s rest in
    let fits : ltb (length (s ++ rest) % 4294967296) (length s) ≡ false = ground (arith, all, h) in
    ap string_of (read_uint32-put (length s) (s ++ rest) (omega (arith, all, h)))
    ∙ rw fits (read_bytes-append (length s) s rest refl)

behind-IsWord : (a b : Bytes) → IsWord (length (a ++ b)) → IsWord (length b)
behind-IsWord a b h = omega (arith, length-append {0} a b, h)

string-IsWord : (s rest : Bytes) → IsWord (length (append_ssh_string s ++ rest)) → IsWord (length s)
unfolding append_ssh_string
string-IsWord s rest h = omega (arith, length-append {0} s rest, h)

-- What a file holds of a key: the number twice that shows whether the section was decrypted, the
-- type, the two halves, and a comment with its padding.
abbrev pub private_section : ℕ → Bytes → Bytes → Bytes
private_section number private comment =
    put_be32 number
    ++ (put_be32 number
        ++ (append_ssh_string key_algorithm_ed25519
            ++ (append_ssh_string (drop 32 private) ++ (append_ssh_string private ++ comment))))

abbrev pub container : Bytes → ℕ → Bytes → Bytes → Bytes → Bytes
container options keys public section behind =
    open_ssh_key_magic
    ++ (append_ssh_string (codes "none")
        ++ (append_ssh_string (codes "none")
            ++ (append_ssh_string options
                ++ (put_be32 keys
                    ++ (append_ssh_string public ++ (append_ssh_string section ++ behind))))))

module _ (crypto : Crypto) (private : Bytes) where
  -- A key whose signature of the test verifies.
  abbrev pub Usable : Type 0
  Usable =
      (length private ≡ 64)
      × (crypto.verify (drop 32 private) (codes "pcscid/ssh-key-check")
            (crypto.sign private (codes "pcscid/ssh-key-check"))
          ≡ true)

  check_key-usable : Usable → check_key crypto (drop 32 private) private ≡ ok private
  unfolding check_key
  check_key-usable h =
      let size : (length private == 64) ≡ true = ground (arith, h.0) in
      let same : bytes_eq (drop 32 private) (drop 32 private) ≡ true =
        (bytes_eq_iff (drop 32 private) (drop 32 private)).1 refl in
      rw size (rw same (rw h.1 refl))

  parse_private-section :
      (number : ℕ) (comment : Bytes)
      → Usable
      → IsWord number
      → IsWord (length (private_section number private comment))
      → parse_private crypto (reader_of (private_section number private comment)) ≡ ok private
  unfolding parse_private
  parse_private-section number comment h w fits =
      let s4 = append_ssh_string private ++ comment in
      let s3 = append_ssh_string (drop 32 private) ++ s4 in
      let s2 = append_ssh_string key_algorithm_ed25519 ++ s3 in
      let s1 = put_be32 number ++ s2 in
      let fits1 = behind-IsWord (put_be32 number) s1 fits in
      let fits2 = behind-IsWord (put_be32 number) s2 fits1 in
      let fits3 = behind-IsWord (append_ssh_string key_algorithm_ed25519) s3 fits2 in
      let fits4 = behind-IsWord (append_ssh_string (drop 32 private)) s4 fits3 in
      let same : (number == number) ≡ true = ground arith in
      let type_same : bytes_eq key_algorithm_ed25519 key_algorithm_ed25519 ≡ true =
        (bytes_eq_iff key_algorithm_ed25519 key_algorithm_ed25519).1 refl in
      rw (read_uint32-put number s1 w) (
        rw (read_uint32-put number s2 w) (
          rw (ssh_string-append key_algorithm_ed25519 s3 fits2) (
            rw (ssh_string-append (drop 32 private) s4 fits3) (
              rw (ssh_string-append private comment fits4)
                (rw same (rw type_same (check_key-usable h)))))))

  parse_blob-section :
      (options public section behind : Bytes) (keys : ℕ)
      → IsWord keys
      → 1 ≤ keys
      → IsWord (length (container options keys public section behind))
      → (parse_blob crypto (container options keys public section behind)
          ≡ parse_private crypto (reader_of section))
        × IsWord (length section)
  unfolding parse_blob
  parse_blob-section options public section behind keys w some_key fits =
      let s6 = append_ssh_string section ++ behind in
      let s5 = append_ssh_string public ++ s6 in
      let s4 = put_be32 keys ++ s5 in
      let s3 = append_ssh_string options ++ s4 in
      let s2 = append_ssh_string (codes "none") ++ s3 in
      let s1 = append_ssh_string (codes "none") ++ s2 in
      let fits1 = behind-IsWord open_ssh_key_magic s1 fits in
      let fits2 = behind-IsWord (append_ssh_string (codes "none")) s2 fits1 in
      let fits3 = behind-IsWord (append_ssh_string (codes "none")) s3 fits2 in
      let fits4 = behind-IsWord (append_ssh_string options) s4 fits3 in
      let fits5 = behind-IsWord (put_be32 keys) s5 fits4 in
      let fits6 = behind-IsWord (append_ssh_string public) s6 fits5 in
      let magic_same : bytes_eq open_ssh_key_magic open_ssh_key_magic ≡ true =
        (bytes_eq_iff open_ssh_key_magic open_ssh_key_magic).1 refl in
      let none_same : bytes_eq (codes "none") (codes "none") ≡ true =
        (bytes_eq_iff (codes "none") (codes "none")).1 refl in
      let enough : ltb keys 1 ≡ false = ground (arith, some_key) in
      (
        rw (read_bytes-append 15 open_ssh_key_magic s1 refl) (
            rw (ssh_string-append (codes "none") s2 fits1) (
              rw (ssh_string-append (codes "none") s3 fits2) (
                rw (ssh_string-append options s4 fits3) (
                  rw (read_uint32-put keys s5 w) (
                    rw (ssh_string-append public s6 fits5) (
                      rw (ssh_string-append section behind fits6)
                        (rw magic_same (rw none_same (rw enough refl))))))))),
        string-IsWord section behind fits6,
      )

-- A usable key in an unencrypted container, with any options, key count of at least 1, check number,
-- comment and padding, is read back, if the container is smaller than four gibibytes. The public half
-- that the container lists outside its private section is any text: it is skipped, and never compared
-- with the private half, although the comment on its read says that it is.
pub parse_blob-container :
    (crypto : Crypto) (private options public comment behind : Bytes) (keys number : ℕ)
    → Usable crypto private
    → IsWord keys
    → IsWord number
    → 1 ≤ keys
    → IsWord
        (length (container options keys public (private_section number private comment) behind))
    → parse_blob crypto
        (container options keys public (private_section number private comment) behind)
      ≡ ok private
parse_blob-container crypto private options public comment behind keys number h w v some_key fits =
    let section = private_section number private comment in
    let opened =
      parse_blob-section crypto private options public section behind keys w some_key fits in
    opened.0 ∙ parse_private-section crypto private number comment h v opened.1
