-- ===== src/Api.antt =====
-- The handlers of the REST interface (src/runtime/production-server.ts), as functions on what its
-- services share: the database as a `Store`, the rows of the egress gateways and of the threat signals.
-- `Coercions` is what the language does with values that are no text, number or flag.
pub mod Nodes
pub mod Policies
pub mod Agent
pub mod Fleet
pub mod Soc
pub mod Routes
use bapc_vpn_and_digital_sec.Base.{
  ℕ, String, Bool, true, false, not, Option, none, some, List, [], ◌∷◌, number_eq, string_eq,
  decimal,
}
pub use bapc_vpn_and_digital_sec.Json.{is_truthy}
use bapc_vpn_and_digital_sec.Json.{
  Json, null, bool, num, str, arr, obj, Items, nil, cons, Fields, end, field, get_field,
}
use bapc_vpn_and_digital_sec.Domain.{AuditRecord, Posture, PolicyAction, MeshNode}
use bapc_vpn_and_digital_sec.Store.{Store, Route}
use bapc_vpn_and_digital_sec.Store.Repositories.{Entity, node, get}
use bapc_vpn_and_digital_sec.Threat.{Milli}
use bapc_vpn_and_digital_sec.Store.Monad.{M, Result, ok, err}
use bapc_vpn_and_digital_sec.Audit.{record_audit}
use bapc_vpn_and_digital_sec.Egress.Gateways.{GatewayRow}
use bapc_vpn_and_digital_sec.Threat.SignalTable.{SignalRow}
use bapc_vpn_and_digital_sec.Rest.Replay.{HttpError}
use bapc_vpn_and_digital_sec.Rest.Http.{Thrown, http, failed, http_error}
use bapc_vpn_and_digital_sec.Rest.Router.{Outcome, gives, throws}

pub record World : Type 0 where
  pub store : Store
  pub gateways : List GatewayRow
  pub signals : List SignalRow

abbrev pub H : Type 0 → Type 0
H A = World → Outcome A × World

abbrev pub then_call : {A B : Type 0} → Outcome A × World → (A → H B) → Outcome B × World
then_call (gives a, w) f = f a w
then_call (throws e, w) f = (throws e, w)

infixl 5 ◌>>=◌ ◌>>◌
abbrev pub ◌>>=◌ : {A B : Type 0} → H A → (A → H B) → H B
◌>>=◌ m f w = then_call (m w) f

abbrev pub ◌>>◌ : {A B : Type 0} → H A → H B → H B
◌>>◌ m k w = then_call (m w) (λ _. k)

abbrev pub return : {A : Type 0} → A → H A
return a w = (gives a, w)

abbrev pub reads : {A : Type 0} → (World → A) → H A
reads f w = (gives (f w), w)

abbrev pub of_store : {A : Type 0} → World → Result A × Store → Outcome A × World
of_store w (ok a, s) = (gives a, record w { store = s })
of_store w (err e, s) = (throws (failed e), record w { store = s })

-- an operation of a service
abbrev pub call : {A : Type 0} → M A → H A
call m w = of_store w (m w.store)

abbrev pub refuse_if : Bool → HttpError → H (Unit {0})
refuse_if true e w = (throws (http e), w)
refuse_if false e w = (gives tt, w)

abbrev pub or_refuse : {A : Type 0} → Option A → HttpError → H A
or_refuse none e w = (throws (http e), w)
or_refuse (some a) e w = (gives a, w)

abbrev pub invalid_request : String → HttpError
invalid_request message = http_error 400 message "invalid_request"

abbrev pub node_missing : HttpError
node_missing = http_error 404 "node not found" "not_found"

-- `of_object` is `String` of an array or an object, `number_of` is `Number` of a value that is no number,
-- taken to be natural, `milli` is `Number` in thousandths with a default, `trim` is that of a text, and
-- `date` is `new Date`. The others are the readings of a JSON value as the type to which the code casts it.
pub record Coercions : Type 0 where
  pub of_object : Json → String
  pub number_of : Json → ℕ
  pub milli : ℕ → Option Json → Milli
  pub trim : String → String
  pub date : Option Json → ℕ
  pub as_route : Json → Route
  pub as_files : Fields → List (String × String)
  pub as_posture : Option Json → Posture
  pub as_names : Json → List String
  pub as_ports : Json → List ℕ
  pub as_action : Json → PolicyAction

-- `String(v)`
abbrev pub text : Coercions → Json → String
text js null = "null"
text js (bool true) = "true"
text js (bool false) = "false"
text js (num n) = decimal n
text js (str s) = s
text js v = js.of_object v

-- `String(body.key??otherwise)`
abbrev pub text_or : Coercions → String → Option Json → String
text_or js otherwise none = otherwise
text_or js otherwise (some null) = otherwise
text_or js otherwise (some v) = text js v

-- `String(body.key)`
abbrev pub text_of : Coercions → Option Json → String
text_of js none = "undefined"
text_of js (some v) = text js v

abbrev pub number : Coercions → Json → ℕ
number js (num n) = n
number js v = js.number_of v

-- `Number(body.key??otherwise)`
abbrev pub number_or : Coercions → ℕ → Option Json → ℕ
number_or js otherwise none = otherwise
number_or js otherwise (some null) = otherwise
number_or js otherwise (some v) = number js v

-- `body.key!==undefined?Number(body.key):undefined`
abbrev pub number_if : Coercions → Option Json → Option ℕ
number_if js none = none
number_if js (some v) = some (number js v)

-- `body.key!==false`
abbrev pub is_not_false : Option Json → Bool
is_not_false (some (bool b)) = b
is_not_false v = true

abbrev pub texts : Coercions → Items → List String
texts js nil = []
texts js (cons v vs) = text js v ∷ texts js vs

-- `Array.isArray(v)?v.map(String):[]`
abbrev pub texts_or_none : Coercions → Option Json → List String
texts_or_none js (some (arr vs)) = texts js vs
texts_or_none js v = []

-- the items of an array, and none for any other value
abbrev pub items_of : {A : Type 0} → (Json → A) → Items → List A
items_of f nil = []
items_of f (cons v vs) = f v ∷ items_of f vs

abbrev as_node : Option Entity → Option MeshNode
as_node (some (node n)) = some n
as_node e = none

-- `repo.get(id)`, taken if it is a node
abbrev pub found_node : String → World → Option MeshNode
found_node id w = as_node (get id w.store)

-- `audit.record`
abbrev pub audited :
    (ℕ → String) → (Json → String) → String → String → String → Json → H AuditRecord
audited iso digest actor action subject payload =
    call (record_audit iso digest actor action subject payload)
