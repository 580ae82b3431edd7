-- ===== src/Daemon/Link/Reading.antt =====
-- The reader states that a client reads from the fake daemon over the link.
use pcscid.Client.{Client}
use pcscid.Common.{
  ℕ, zero, suc, ◌*◌, List, [], ◌∷◌, ◌≡◌, refl, arith, length, replicate, length-append,
}
use pcscid.Daemon.Link.{Link}
use pcscid.Daemon.{Server, encode_states_locked, sorted_readers}
use pcscid.Wire.States.Agreement.{length-encode_reader_state}
use pcscid.Wire.States.{FakeReader, encode_reader_state, encode_entries, encode_states}

length-encode_entries : (n : ℕ) (rs : List FakeReader) → length (encode_entries n rs) ≡ 184 * n
unfolding encode_entries
length-encode_entries zero rs = refl
length-encode_entries (suc n) [] =
    omega
      (arith, length-append {0} (replicate 184 0) (encode_entries n []), length-encode_entries n [])
length-encode_entries (suc n) (r ∷ rs) = omega (
  arith,
  length-append {0} (encode_reader_state r) (encode_entries n rs),
  length-encode_reader_state r,
  length-encode_entries n rs,
)

pub length-encode_states_locked : (s : Server) → length (encode_states_locked s) ≡ 2944
unfolding encode_states_locked encode_states
length-encode_states_locked s = length-encode_entries 16 (sorted_readers s.readers)
