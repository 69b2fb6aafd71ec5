-- ===== src/Threat/Durable.antt =====
-- services/threat-engine/correlator.ts (`ThreatCorrelator.ingest`) over the durable windows of
-- services/threat-engine/pg-threat-signal-store.ts, as production builds it.
pub mod Rows
pub mod Refines
use bapc_vpn_and_digital_sec.Base.{ℕ, String, List}
use bapc_vpn_and_digital_sec.Store.{Store}
use bapc_vpn_and_digital_sec.Store.Monad.{Result, ok, err}
use bapc_vpn_and_digital_sec.Threat.{ThreatSignal}
use bapc_vpn_and_digital_sec.Threat.Engine.{Evaluation, evaluate}
use bapc_vpn_and_digital_sec.Threat.Window.{key_of}
use bapc_vpn_and_digital_sec.Threat.SignalTable.{SignalRow, insert_signal, window_rows}

-- `ingest` once the signal is written
abbrev pub evaluate_rows :
    ℕ → ThreatSignal → List SignalRow → Store → Result Evaluation × Store × List SignalRow
evaluate_rows width signal rows s =
    let (kept, rows') = window_rows (key_of signal.node_id) signal.at_ms width rows in
    let (r, s') = evaluate kept s in (r, s', rows')

unfoldable pub ingest_rows :
    ℕ → ThreatSignal → List SignalRow → Store → Result Evaluation × Store × List SignalRow
ingest_rows width signal rows s = elim (insert_signal (key_of signal.node_id) signal rows) [
  | err e ↦ (err e, s, rows)
  | ok rows' ↦ evaluate_rows width signal rows' s
]
