-- ===== src/Usb/Scan.antt =====
-- readerid.go, `usbPortPathByReader`.
use pcscid.Common.{
  ℕ, List, [], ◌∷◌, Option, none, some, Bytes, codes, map, Table, lookup, bytes_eq, if◌then◌else◌,
  Result, ok, err, ◌>>=◌,
}
use pcscid.Tags.{is_empty}
use pcscid.Units.{is_foreign}
use pcscid.Usb.{
  Node, Root, no_root, unreadable, listing, Reason, no_root_configured, tree_unreadable, no_tokens,
  no_match, no_devpath, claimed_port, singled_out_claimed, no_traffic, ambiguous, read_sys_string,
  port_identity, usb_ccid_devices, usb_urb_winner, reader_name_tokens, candidates_of,
}

-- `resolve`: the port identity of a candidate.
unfoldable pub identity_of : Bytes → Bytes → Result Reason Bytes
unfolding is_empty port_identity
identity_of reader devpath =
    if is_empty devpath then err no_devpath else ok (port_identity reader devpath)

unfoldable pub resolve : Bytes → Node → Result Reason Bytes
unfolding identity_of read_sys_string
resolve reader node = identity_of reader (read_sys_string node (codes "devpath"))

-- A port that is not another reader's.
unfoldable pub unless_claimed : Bytes → Table Bytes → Reason → Bytes → Result Reason Bytes
unfolding is_foreign
unless_claimed reader claims refusal port =
    if is_foreign reader (lookup port claims) then err refusal else ok port

-- The candidate of a name: names are unique in a directory.
unfoldable pub node_named : Bytes → List Node → Option Node
node_named name [] = none
node_named name (node ∷ nodes) =
    let rest = node_named name nodes in if bytes_eq node.name name then some node else rest

unfoldable pub resolve_named : Bytes → Option Node → Result Reason Bytes
unfolding resolve
resolve_named reader none = err no_devpath
resolve_named reader (some node) = resolve reader node

-- The ports of the candidates that are not another reader's.
unfoldable pub free_ports : Bytes → Table Bytes → List Node → Result Reason (List Bytes)
unfolding resolve is_foreign
free_ports reader claims [] = ok []
free_ports reader claims (node ∷ nodes) = do
  port ← resolve reader node
  free ← free_ports reader claims nodes
  ok (if is_foreign reader (lookup port claims) then free else port ∷ free)

-- Elimination: exactly one free port.
unfoldable pub only_one : Reason → List Bytes → Result Reason Bytes
only_one refusal (port ∷ []) = ok port
only_one refusal [] = err refusal
only_one refusal (port ∷ other ∷ ports) = err refusal

unfoldable pub refusal_of : Option (Table ℕ) → Option (Table ℕ) → Reason
refusal_of none after = no_traffic
refusal_of (some before) none = no_traffic
refusal_of (some before) (some after) = ambiguous

-- Of several candidates, the one that the traffic singles out, or else the only free one.
unfoldable pub by_winner :
    Bytes → Table Bytes → List Node → Reason → Option Bytes → Result Reason Bytes
unfolding resolve_named node_named unless_claimed free_ports only_one
by_winner reader claims candidates refusal (some winner) = do
  port ← resolve_named reader (node_named winner candidates)
  unless_claimed reader claims singled_out_claimed port
by_winner reader claims candidates refusal none = do
  free ← free_ports reader claims candidates
  only_one refusal free

unfoldable pub choose :
    Bytes → Option (Table ℕ) → Option (Table ℕ) → Table Bytes → List Node → Result Reason Bytes
unfolding by_winner resolve unless_claimed refusal_of usb_urb_winner
choose reader before after claims [] = err no_match
choose reader before after claims (node ∷ []) = do
  port ← resolve reader node
  unless_claimed reader claims claimed_port port
choose reader before after claims (node ∷ other ∷ nodes) =
    let candidates = node ∷ other ∷ nodes in
    by_winner reader claims candidates (refusal_of before after)
      (usb_urb_winner before after (map (λ n. n.name) candidates))

unfoldable pub scan :
    Bytes
    → Option (Table ℕ)
    → Option (Table ℕ)
    → Table Bytes
    → List Node
    → List Bytes
    → Result Reason Bytes
unfolding choose candidates_of usb_ccid_devices
scan reader before after claims nodes [] = err no_tokens
scan reader before after claims nodes (token ∷ tokens) =
    choose reader before after claims
      (candidates_of (usb_ccid_devices nodes) (token ∷ tokens) nodes)

unfoldable pub usb_port_path_by_reader :
    Root → Bytes → Option (Table ℕ) → Option (Table ℕ) → Table Bytes → Result Reason Bytes
unfolding scan reader_name_tokens
usb_port_path_by_reader no_root reader before after claims = err no_root_configured
usb_port_path_by_reader unreadable reader before after claims = err tree_unreadable
usb_port_path_by_reader (listing nodes) reader before after claims =
    scan reader before after claims nodes (reader_name_tokens reader)
