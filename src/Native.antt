-- ===== src/Native.antt =====
-- native/shared/command-runner.ts and the inputs of native/shared/platform-adapter.ts: what an adapter is
-- told and what it does to a machine. The machine is a parameter with a state `P`: the runner of commands,
-- whose outcome is the standard output or an error, temporary directories, files, and `join` of node:path.
pub mod Keys
pub mod Routes
pub mod Linux
pub mod Windows
pub mod Operations
pub mod Laws
pub mod RouteWords
pub mod Firewall
use bapc_vpn_and_digital_sec.Base.{
  ℕ, zero, suc, String, Bool, true, false, List, [], ◌∷◌, ◌++◌, Option, none, some, is_empty,
  join_with, decimal, ◌<+>◌,
}
use bapc_vpn_and_digital_sec.Domain.{Error, plain}
use bapc_vpn_and_digital_sec.Store.Monad.{Result, ok, err}

pub record Peer : Type 0 where
  pub public_key : String
  pub endpoint : Option String
  pub allowed_ips : List String
  pub keepalive_seconds : ℕ

pub record WireGuardInput : Type 0 where
  pub private_key_reference : String
  pub addresses : List String
  pub listen_port : Option ℕ
  pub peers : List Peer

pub record FirewallRule : Type 0 where
  pub id : String
  pub action : String
  pub protocols : List String
  pub ports : List ℕ
  pub source_zones : List String
  pub destination_zones : List String

pub record FirewallInput : Type 0 where
  pub commit_id : String
  pub rules : List FirewallRule

pub record Machine (P : Type 0) : Type 0 where
  pub run : String → List String → P → Result String × P
  pub join : String → String → String
  pub temp_dir : String → P → Result String × P
  pub write_file : String → String → P → Result (Unit {0}) × P
  pub exists : String → P → Bool

abbrev pub Act : Type 0 → Type 0 → Type 0
Act P A = P → Result A × P

module _ {P : Type 0} where
  abbrev pub then_act : {A B : Type 0} → Result A × P → (A → Act P B) → Result B × P
  then_act (ok a, p) f = f a p
  then_act (err e, p) f = (err e, p)

  infixl 5 ◌>>=◌ ◌>>◌
  abbrev pub ◌>>=◌ : {A B : Type 0} → Act P A → (A → Act P B) → Act P B
  ◌>>=◌ m f p = then_act (m p) f

  abbrev pub ◌>>◌ : {A B : Type 0} → Act P A → Act P B → Act P B
  ◌>>◌ m k p = then_act (m p) (λ _. k)

  abbrev pub return : {A : Type 0} → A → Act P A
  return a p = (ok a, p)

  abbrev pub reject_if : Bool → String → Act P (Unit {0})
  reject_if true message p = (err (plain message), p)
  reject_if false message p = (ok tt, p)

  abbrev pub settle : {A : Type 0} → Result A × P → Result (Unit {0}) × P
  settle (r, p) = (ok tt, p)

  -- `.catch(()=>{})`
  abbrev pub ignoring : {A : Type 0} → Act P A → Act P (Unit {0})
  ignoring m p = settle (m p)

  abbrev pub succeeded : {A : Type 0} → Result A × P → Result Bool × P
  succeeded (ok _, p) = (ok true, p)
  succeeded (err _, p) = (ok false, p)

  -- `.then(()=>true).catch(()=>false)`
  abbrev pub succeeds : {A : Type 0} → Act P A → Act P Bool
  succeeds m p = succeeded (m p)

  abbrev pub or_message : {A : Type 0} → String → Result A × P → Result (Unit {0}) × P
  or_message message (ok _, p) = (ok tt, p)
  or_message message (err _, p) = (err (plain message), p)

  abbrev pub for_all {ℓ} : {A : Type ℓ} → List A → (A → Act P (Unit {0})) → Act P (Unit {0})
  for_all [] f p = (ok tt, p)
  for_all (x ∷ xs) f p = then_act (f x p) (λ _. for_all xs f)

-- the values that a test of the source takes for true
abbrev pub text_if : Option String → Option String
text_if none = none
text_if (some s) = elim (is_empty s) [ true ↦ none | false ↦ some s ]

abbrev pub number_if : Option ℕ → Option ℕ
number_if none = none
number_if (some zero) = none
number_if (some (suc n)) = some (suc n)

abbrev endpoint_line : Option String → List String
endpoint_line none = []
endpoint_line (some e) = ("Endpoint = " <+> e) ∷ []

-- the section of a peer in a configuration file
unfoldable pub peer_section : Peer → List String
peer_section p =
    "[Peer]"
    ∷ ("PublicKey = " <+> p.public_key)
    ∷ ("AllowedIPs = " <+> join_with ", " p.allowed_ips)
    ∷ ("PersistentKeepalive = " <+> decimal p.keepalive_seconds)
    ∷ endpoint_line (text_if p.endpoint)

-- the sections that `applyPeers` writes, each with an empty line after it
unfoldable pub peer_lines : List Peer → List String
unfolding peer_section
peer_lines [] = []
peer_lines (p ∷ ps) = peer_section p ++ "" ∷ peer_lines ps
