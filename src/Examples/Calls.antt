-- ===== src/Examples/Calls.antt =====
-- Calls over concrete connections.
use pcscid.Client.Bounds.{IsShort, AreBounded, calls-AreBounded}
use pcscid.Client.Calls.{states, connect, transmit, get_attrib, disconnect, wait_change}
use pcscid.Client.Outcome.{Brought, Ensures, Fails, IsFull, IsSilent}
use pcscid.Client.Silent.{silent_calls-Fails}
use pcscid.Client.{Conn, got, timed_out, handshake, establish}
use pcscid.Common.{ℕ, true, [], ◌∷◌, replicate, length-replicate, Bytes, codes}
use pcscid.Uid.{CardConn}

-- A connection on which every read runs into its deadline.
abbrev mute : Conn ℕ
mute = record {
  write = λ b c. (true, c);
  read = λ n c. (timed_out, c);
  set_deadline = λ ms c. (true, c);
  close = λ c. c;
}

-- A connection that brings ones, as many as are asked for.
abbrev chatty : Conn ℕ
chatty = record {
  write = λ b c. (true, c);
  read = λ n c. (got (replicate n 1), c);
  set_deadline = λ ms c. (true, c);
  close = λ c. c;
}

abbrev card : CardConn
card = record { handle = 7; protocol = 2 }

abbrev get_uid : Bytes
get_uid = 0xFF ∷ 0xCA ∷ 0 ∷ 0 ∷ 0 ∷ []

mute-IsSilent : IsSilent mute
unfolding Brought
mute-IsSilent n c = tt

chatty-IsFull : IsFull chatty
unfolding Brought
chatty-IsFull n c = length-replicate n 1

silent_calls-Fails_example :
    Fails (handshake mute)
    × Fails (establish mute)
    × Fails (states mute)
    × Fails (wait_change mute 500)
    × Fails (connect mute (codes "A") 500)
    × Fails (transmit mute card get_uid 64)
    × Fails (get_attrib mute card 500)
    × Fails (disconnect mute card 500)
silent_calls-Fails_example = silent_calls-Fails mute (codes "A") get_uid card 500 64 mute-IsSilent

calls-AreBounded_example :
    Ensures IsShort (transmit chatty card get_uid 64)
    × Ensures IsShort (get_attrib chatty card 0x0110)
    × Ensures AreBounded (states chatty)
calls-AreBounded_example = calls-AreBounded chatty card get_uid 64 0x0110 chatty-IsFull
