-- ===== src/Threat/Durable/Refines.antt =====
-- The durable windows of signals (services/threat-engine/pg-threat-signal-store.ts) against the windows in
-- memory (services/threat-engine/threat-signal-store.ts): on signals that come in the order of their times
-- the correlator evaluates the same signals over either store.
use bapc_vpn_and_digital_sec.Base.{
  ℕ, ◌≤◌, String, ◌≡◌, ◌⊎◌, true, false, none, some, List, [], ◌∷◌, ◌++◌, ◌==◌, number_eq,
  string_eq, filter, All,
}
use bapc_vpn_and_digital_sec.Store.{Store}
use bapc_vpn_and_digital_sec.Store.Monad.{Result}
use bapc_vpn_and_digital_sec.Threat.{ThreatSignal}
use bapc_vpn_and_digital_sec.Threat.Engine.{Evaluation}
use bapc_vpn_and_digital_sec.Threat.Window.{Windows, unattributed, key_of}
use bapc_vpn_and_digital_sec.Threat.SignalTable.{SignalRow, column_weight, fits_columns, is_kept}
use bapc_vpn_and_digital_sec.Threat.Durable.Rows.{InOrder, ReadsBack, Represents}

-- what the correlator relies on of a signal: it comes no earlier than those in the rows, and its node is
-- not called as the key of the signals without one
abbrev pub IsNamed : ThreatSignal → Type 0
IsNamed x =
    ((id : String) × (x.node_id ≡ some id) × ((id == unattributed) ≡ false)) ⊎ (x.node_id ≡ none)

-- The columns keep the signal as it is: its weight is one of whole hundredths, and its numbers are in range.
abbrev pub IsExact : ThreatSignal → Type 0
IsExact x = (fits_columns x ≡ true) × (column_weight x.weight ≡ x.weight)

abbrev pub Arrives : ThreatSignal → List SignalRow → Type 0
Arrives x rows = All (λ q. q.signal.at_ms ≤ x.at_ms) rows × IsNamed x

abbrev pub Simulates : List SignalRow → Windows → Type 0
Simulates rows w = InOrder rows × All ReadsBack rows × Represents rows w

abbrev row_of : ThreatSignal → SignalRow
row_of x = record { node_key = key_of x.node_id; signal = x }

module _ (width : ℕ) (x : ThreatSignal) (rows : List SignalRow) (w : Windows) (s : Store) where
  -- the rows once the signal is written and the window is read
  abbrev kept_rows : List SignalRow
  kept_rows = filter (is_kept (key_of x.node_id) x.at_ms width) (rows ++ row_of x ∷ [])

-- the signals one after another over either store: the evaluations, the store and the windows
abbrev pub ingest_all :
    {W : Type 0}
    → (ThreatSignal → W → Store → Result Evaluation × Store × W)
    → List ThreatSignal
    → W
    → Store
    → List (Result Evaluation) × Store × W
ingest_all step [] w s = ([], s, w)
ingest_all step (x ∷ xs) w s =
    let (r, s', w') = step x w s in
    let (rs, s'', w'') = ingest_all step xs w' s' in (r ∷ rs, s'', w'')

-- signals in the order of their times, none of them for a node with the reserved name, all of them as the columns
-- keep them
abbrev pub InTime : List ThreatSignal → Type 0
InTime [] = Unit
InTime (x ∷ xs) = All (λ y. x.at_ms ≤ y.at_ms) xs × IsNamed x × IsExact x × InTime xs

abbrev pub AllLater : List SignalRow → List ThreatSignal → Type 0
AllLater rows xs = All (λ y. All (λ q. q.signal.at_ms ≤ y.at_ms) rows) xs
