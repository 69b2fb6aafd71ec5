-- ===== src/Relay.antt =====
-- services/relay/relay-server.ts, `BlindRelayServer`: the sessions of the relay and the lookup of a
-- datagram's sender. The socket itself is left out: `forward` returns where the datagram is sent.
pub mod Laws
use bapc_vpn_and_digital_sec.Base.{
  ℕ, ◌+◌, String, Bool, true, false, ◌&&◌, List, [], ◌∷◌, Option, none, some, ◌==◌, string_eq,
  number_eq, if◌then◌else◌, length, decimal, ◌<+>◌,
}

pub record Endpoint : Type 0 where
  pub host : String
  pub port : ℕ

pub record RelaySession : Type 0 where
  pub session_id : String
  pub a : Endpoint
  pub b : Endpoint

abbrev pub Table : Type 0
Table = List (String × RelaySession)

unfoldable pub look_up : String → Table → Option RelaySession
look_up key [] = none
look_up key ((k, v) ∷ m) = if k == key then some v else look_up key m

unfoldable pub assign : String → RelaySession → Table → Table
assign key v [] = (key, v) ∷ []
assign key v ((k, u) ∷ m) = if k == key then (k, v) ∷ m else (k, u) ∷ assign key v m

unfoldable pub remove_key : String → Table → Table
remove_key key [] = []
remove_key key ((k, u) ∷ m) = if k == key then remove_key key m else (k, u) ∷ remove_key key m

pub record RelayServer : Type 0 where
  pub sessions : Table
  pub by_endpoint : Table
  pub bytes_relayed : ℕ

unfoldable pub key_for : Endpoint → String
key_for e = e.host <+> ":" <+> decimal e.port

unfoldable pub register : RelaySession → RelayServer → RelayServer
register x r = record r {
  sessions = assign x.session_id x r.sessions;
  by_endpoint = assign (key_for x.b) x (assign (key_for x.a) x r.by_endpoint);
}

unfoldable pub unregister : String → RelayServer → RelayServer
unregister session_id r = elim (look_up session_id r.sessions) [
  | none ↦ r
  | some x ↦ record r {
    sessions = remove_key session_id r.sessions;
    by_endpoint = remove_key (key_for x.b) (remove_key (key_for x.a) r.by_endpoint);
  }
]

unfoldable pub active_session_count : RelayServer → ℕ
active_session_count r = length r.sessions

abbrev pub same_endpoint : Endpoint → Endpoint → Bool
same_endpoint x y = x.host == y.host && x.port == y.port

-- The datagram of `size` bytes goes to the session's other side; that of an unknown sender is dropped.
unfoldable pub forward : Endpoint → ℕ → RelayServer → Option Endpoint × RelayServer
forward from size r = elim (look_up (key_for from) r.by_endpoint) [
  | none ↦ (none, r)
  | some x ↦ (
    some (if same_endpoint from x.a then x.b else x.a),
    record r { bytes_relayed = r.bytes_relayed + size },
  )
]
