-- ===== src/Recovery.antt =====
-- services/oob-controller/controller.ts (`OobController`) and
-- services/oob-controller/pg-recovery-store.ts (`PgRecoveryStore`): checkpoints over an out-of-band
-- channel. The channel (src under services/oob-controller/http-channel.ts talks to another process) is
-- a parameter: its state `C`, what `healthy`, `push` and `verify` answer. A text of a document is hashed
-- by `digest`, in the order of its keys.
pub mod Laws
use bapc_vpn_and_digital_sec.Base.{
  ℕ, ◌+◌, String, Bool, true, false, not, ◌&&◌, List, [], ◌∷◌, ◌++◌, Option, none, some, ◌==◌,
  string_eq, if◌then◌else◌, filter, find_where, update_where,
}
use bapc_vpn_and_digital_sec.Json.{Json}
use bapc_vpn_and_digital_sec.Domain.{Error, plain}
use bapc_vpn_and_digital_sec.Store.Monad.{Result, ok, err}

pub record Snapshot : Type 0 where
  pub id : String
  pub scope : String
  pub checksum : String
  pub document : Json
  pub created_by : String
  pub lkg : Bool

abbrev pub is_lkg : String → Snapshot → Bool
is_lkg scope r = r.scope == scope && r.lkg

abbrev pub retired : Snapshot → Snapshot
retired r = record r { lkg = false }

-- `save`: the scope's last-known-good row is retired first
unfoldable pub save : Snapshot → List Snapshot → List Snapshot
save r rows = (if r.lkg then update_where (is_lkg r.scope) retired rows else rows) ++ r ∷ []

-- `lastKnownGood`; `jsonb` is what the column gives back of a document, of which it keeps neither the order of
-- the keys nor one that is there twice
unfoldable pub last_known_good : (Json → Json) → String → List Snapshot → Option Snapshot
last_known_good jsonb scope rows = elim (find_where (is_lkg scope) rows) [
  | none ↦ none
  | some r ↦ some (record r { document = jsonb r.document })
]

pub record Channel (C : Type 0) : Type 0 where
  pub healthy : C → Bool
  pub push : String → Json → C → C
  pub verify : String → String → C → Bool

pub record Restored : Type 0 where
  pub restored : String
  pub checksum : String

module _ {C : Type 0} (ch : Channel C) (digest : Json → String) (jsonb : Json → Json) where
  -- The state is the rows and the channel's state; `id` is the random identifier drawn.
  unfoldable pub checkpoint :
      String → String → Json → String → List Snapshot → C → Result Snapshot × List Snapshot × C
  checkpoint id scope document actor rows c =
      if not (ch.healthy c)
      then (err (plain "OOB channel unhealthy; checkpoint refused"), rows, c)
      else let c' = ch.push scope document c in
        if not (ch.verify scope (digest document) c')
        then (err (plain "OOB verification failed"), rows, c')
        else let r : Snapshot = record {
          id = id;
          scope = scope;
          checksum = digest document;
          document = document;
          created_by = actor;
          lkg = true;
        } in
          (ok r, save r rows, c')

  unfoldable pub restore_to : String → Snapshot → C → Result Restored × C
  restore_to scope r c =
      if not (ch.healthy c)
      then (err (plain "OOB channel unavailable"), c)
      else let c' = ch.push scope r.document c in
        if not (ch.verify scope r.checksum c')
        then (err (plain "rollback verification failed"), c')
        else (ok (record { restored = r.id; checksum = r.checksum }), c')

  unfoldable pub rollback : String → List Snapshot → C → Result Restored × C
  unfolding restore_to
  rollback scope rows c = elim (last_known_good jsonb scope rows) [
    | none ↦ (err (plain "no last-known-good recovery snapshot"), c)
    | some r ↦ restore_to scope r c
  ]
