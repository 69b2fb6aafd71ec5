-- ===== src/Threat/Window.antt =====
-- services/threat-engine/threat-signal-store.ts (`InMemoryThreatSignalStore`) and
-- services/threat-engine/correlator.ts (`ThreatCorrelator`): the signals of each node in a sliding window.
-- The map of windows is the correlator's state; the engine works on the store.
pub mod Laws
use bapc_vpn_and_digital_sec.Base.{
  ℕ, ◌+◌, ◌-◌, String, Bool, true, false, not, List, [], ◌∷◌, ◌++◌, Option, none, some, ◌==◌,
  string_eq, if◌then◌else◌, leb, length, filter,
}
use bapc_vpn_and_digital_sec.Store.{Store}
use bapc_vpn_and_digital_sec.Store.Monad.{Result, ok, err}
use bapc_vpn_and_digital_sec.Threat.{ThreatSignal}
use bapc_vpn_and_digital_sec.Threat.Ports.{close_incidents}
use bapc_vpn_and_digital_sec.Threat.Engine.{Evaluation, evaluate}

-- `Map<string,ThreatSignal[]>`
abbrev pub Windows : Type 0
Windows = List (String × List ThreatSignal)

unfoldable pub signals_of : String → Windows → List ThreatSignal
signals_of key [] = []
signals_of key ((k, v) ∷ w) = if k == key then v else signals_of key w

unfoldable pub put : String → List ThreatSignal → Windows → Windows
put key v [] = (key, v) ∷ []
put key v ((k, u) ∷ w) = if k == key then (k, v) ∷ w else (k, u) ∷ put key v w

unfoldable pub drop_key : String → Windows → Windows
drop_key key [] = []
drop_key key ((k, u) ∷ w) = if k == key then drop_key key w else (k, u) ∷ drop_key key w

unfoldable pub record_signal : String → ThreatSignal → Windows → Windows
record_signal key signal w = put key (signals_of key w ++ signal ∷ []) w

-- A signal is kept when its time is `since` or later, where `since` is `end - width`.
abbrev pub in_window : ℕ → ℕ → ThreatSignal → Bool
in_window end width s = leb end (s.at_ms + width)

abbrev pub keep : String → List ThreatSignal → Windows → Windows
keep key [] w = drop_key key w
keep key (x ∷ xs) w = put key (x ∷ xs) w

unfoldable pub window : String → ℕ → ℕ → Windows → List ThreatSignal × Windows
window key end width w =
    let kept = filter (in_window end width) (signals_of key w) in (kept, keep key kept w)

unfoldable pub clear : String → Windows → ℕ × Windows
clear key w = (length (signals_of key w), drop_key key w)

abbrev pub unattributed : String
unattributed = "__unattributed__"

abbrev pub key_of : Option String → String
key_of none = unattributed
key_of (some id) = id

unfoldable pub ingest : ℕ → ThreatSignal → Windows → Store → Result Evaluation × Store × Windows
ingest width signal w s =
    let key = key_of signal.node_id in
    let (kept, w') = window key signal.at_ms width (record_signal key signal w) in
    let (r, s') = evaluate kept s in (r, s', w')

-- `record_dismissal` is what the `dismissals` port does, or the identity where there is none.
unfoldable pub dismiss :
    (String → String → ℕ → Store → Store) → String → String → Windows → Store → ℕ × Store × Windows
dismiss record_dismissal node_id dismissed_by w s =
    let (count, w') = clear node_id w in
    let (closed, s') =
      close_incidents node_id dismissed_by (record_dismissal node_id dismissed_by count s) in
    (count, s', w')

unfoldable pub active_signal_count : String → ℕ → ℕ → Windows → ℕ × Windows
active_signal_count node_id now width w =
    let (kept, w') = window node_id now width w in (length kept, w')
