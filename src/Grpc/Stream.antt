-- ===== src/Grpc/Stream.antt =====
-- `streamHeartbeat` of src/api/grpc/server.ts: what a node that is connected over gRPC gets of the queue of
-- commands. `iso` writes a time as a text. A failure of the database is not modelled.
use bapc_vpn_and_digital_sec.Base.{
  ℕ, String, ◌≡◌, sym, ap, refl, true, false, Option, none, some, List, [], ◌∷◌, ◌++◌, map, inl,
  inr, Bool-cases, eq_of_==, ◌==◌, string_eq, if◌then◌else◌, contains, is_empty, All,
}
use bapc_vpn_and_digital_sec.Json.{Json, null, str, obj, end, field}
use bapc_vpn_and_digital_sec.Store.{Store, Command}
use bapc_vpn_and_digital_sec.Store.Commands.{pending_commands, acknowledge}
use bapc_vpn_and_digital_sec.Store.Commands.Laws.{acknowledge-pending_commands}

abbrev controller_actions : List String
controller_actions =
    "NOOP" ∷ "RELOAD_POLICIES" ∷ "ROTATE_KEYS" ∷ "QUARANTINE_NODE" ∷ "SEVER_ALL" ∷ []

-- `REST_COMMAND_TO_CONTROLLER_ACTION[type]??"NOOP"`
abbrev translated : String → String
translated type =
    if "QUARANTINE" == type
    then "QUARANTINE_NODE"
    else if "RESTORE" == type
    then "RELOAD_POLICIES"
    else if "APPLY_PEERS" == type
    then "RELOAD_POLICIES"
    else if "ROTATE_IDENTITY_REQUIRED" == type
    then "ROTATE_KEYS"
    else "NOOP"

unfoldable pub controller_action_for : String → String
controller_action_for type = if contains controller_actions type then type else translated type

-- what is written to the stream; an empty buffer is no payload
pub record ControllerReply : Type 0 where
  pub action : String
  pub payload : Option Json

abbrev pub noop : ControllerReply
noop = record { action = "NOOP"; payload = none }

abbrev pub or_object : Json → Json
or_object null = obj end
or_object v = v

abbrev reply_to : Command → ControllerReply
reply_to c = record { action = controller_action_for c.type; payload = some (or_object c.payload) }

-- what the protocol has for each type of a command
abbrev pub meaning : List (String × String)
meaning =
    ("NOOP", "NOOP")
    ∷ ("RELOAD_POLICIES", "RELOAD_POLICIES")
    ∷ ("ROTATE_KEYS", "ROTATE_KEYS")
    ∷ ("QUARANTINE_NODE", "QUARANTINE_NODE")
    ∷ ("SEVER_ALL", "SEVER_ALL")
    ∷ ("QUARANTINE", "QUARANTINE_NODE")
    ∷ ("RESTORE", "RELOAD_POLICIES")
    ∷ ("APPLY_PEERS", "RELOAD_POLICIES")
    ∷ ("ROTATE_IDENTITY_REQUIRED", "ROTATE_KEYS")
    ∷ []

-- the entry of a type, and to do nothing where there is none
unfoldable pub action_in : List (String × String) → String → String
action_in [] type = "NOOP"
action_in ((t, action) ∷ rest) type = if t == type then action else action_in rest type

action_in-contains :
    (names : List String) (rest : List (String × String)) (type : String)
    → (if contains names type then type else action_in rest type)
      ≡ action_in (map (λ t. (t, t)) names ++ rest) type
unfolding action_in
action_in-contains [] rest type = refl
action_in-contains (t ∷ names) rest type = elim (Bool-cases (t == type)) [
  | inl e ↦ rw e (sym (eq_of_== t type e))
  | inr e ↦ rw e (action_in-contains names rest type)
]

controller_action_for-action_in :
    (type : String) → controller_action_for type ≡ action_in meaning type
unfolding controller_action_for action_in
controller_action_for-action_in type =
    action_in-contains controller_actions
      (("QUARANTINE", "QUARANTINE_NODE")
        ∷ ("RESTORE", "RELOAD_POLICIES")
        ∷ ("APPLY_PEERS", "RELOAD_POLICIES")
        ∷ ("ROTATE_IDENTITY_REQUIRED", "ROTATE_KEYS")
        ∷ [])
      type

reply_meaning :
    (c : Command)
    → reply_to c
      ≡ record { action = action_in meaning c.type; payload = some (or_object c.payload) }
reply_meaning c =
    ap (λ a. record { action = a; payload = some (or_object c.payload) })
      (controller_action_for-action_in c.type)

module _ (iso : ℕ → String) where
  abbrev pub delivery : Store → Json
  delivery s =
      obj (field "deliveredAt" (str (iso s.now)) (field "via" (str "grpc-stream-heartbeat") end))

  abbrev pub deliver_first : List Command → Store → ControllerReply × Store
  deliver_first [] s = (noop, s)
  deliver_first (c ∷ _) s = (reply_to c, acknowledge c.id (delivery s) s)

  unfoldable pub stream_heartbeat : String → Store → ControllerReply × Store
  unfolding controller_action_for
  stream_heartbeat node_id s = elim (is_empty node_id) [
    | true ↦ (noop, s)
    | false ↦ deliver_first (pending_commands node_id 1 s) s
  ]

  -- A heartbeat on the stream of a node with a pending command gets the first one with its payload, as the
  -- action that the table has for its type: an action of the protocol as itself, a quarantine, a
  -- restoration, new peers and a rotation as the action for it, and every other type as the action to do
  -- nothing. The command is then delivered to no node any more.
  pub stream_heartbeat-pending_commands :
      (node_id other : String) (limit : ℕ) (c : Command) (rest : List Command) (s : Store)
      → is_empty node_id ≡ false
      → pending_commands node_id 1 s ≡ c ∷ rest
      → ((stream_heartbeat node_id s).0
          ≡ record { action = action_in meaning c.type; payload = some (or_object c.payload) })
        × All
            (λ x. (x.id == c.id) ≡ false)
            (pending_commands other limit (stream_heartbeat node_id s).1)
  unfolding stream_heartbeat
  stream_heartbeat-pending_commands node_id other limit c rest s e h =
      rw (stream_heartbeat, e, h)
        (reply_meaning c, acknowledge-pending_commands c.id other (delivery s) limit s)
