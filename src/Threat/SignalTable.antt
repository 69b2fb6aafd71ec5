-- ===== src/Threat/SignalTable.antt =====
-- services/threat-engine/pg-threat-signal-store.ts (`PgThreatSignalStore`): the durable windows, as rows of
-- the table threat_signal_window (db/017_threat_signal_window.sql) in the order of insertion. Its columns
-- weight, numeric(10,2), and confidence, numeric(4,3), round and overflow. The order of the keys of the
-- metadata, which nothing reads, is kept here and not by the column.
use bapc_vpn_and_digital_sec.Base.{
  ℕ, zero, suc, ◌+◌, ◌*◌, ◌/◌, ◌&&◌, max, String, Bool, not, ◌||◌, none, some, List, [], ◌∷◌, ◌++◌,
  map, if◌then◌else◌, ltb, leb, ◌==◌, number_eq, string_eq, length, filter, upsert, sort,
}
use bapc_vpn_and_digital_sec.Domain.{database}
use bapc_vpn_and_digital_sec.Store.Monad.{Result, ok, err}
use bapc_vpn_and_digital_sec.Threat.{Milli, above, below, ThreatSignal}
use bapc_vpn_and_digital_sec.Threat.Window.{in_window, unattributed}

pub record SignalRow : Type 0 where
  pub node_key : String
  pub signal : ThreatSignal

abbrev negative : ℕ → Milli
negative zero = above 0
negative (suc k) = below k

-- thousandths to whole hundredths, a half away from zero
abbrev to_hundredths : ℕ → ℕ
to_hundredths n = (n + 5) / 10 * 10

unfoldable pub column_weight : Milli → Milli
column_weight (above n) = above (to_hundredths n)
column_weight (below n) = negative (to_hundredths (n + 1))

abbrev magnitude : Milli → ℕ
magnitude (above n) = n
magnitude (below n) = n + 1

-- the confidence is below 10, the rounded weight below 10^8
unfoldable pub fits_columns : ThreatSignal → Bool
fits_columns x =
    ltb (magnitude x.confidence) 10000 && ltb (magnitude (column_weight x.weight)) 100000000000

abbrev pub as_stored : ThreatSignal → ThreatSignal
as_stored x = record x { weight = column_weight x.weight }

-- `record`; a value that overflows its column is an error of the database
unfoldable pub insert_signal : String → ThreatSignal → List SignalRow → Result (List SignalRow)
insert_signal key signal rows =
    if fits_columns signal
    then ok (rows ++ record { node_key = key; signal = as_stored signal } ∷ [])
    else err (database "22003")

-- the row that `DELETE … WHERE node_key=$1 AND occurred_at<$2` leaves
abbrev pub is_kept : String → ℕ → ℕ → SignalRow → Bool
is_kept key end width r = not (r.node_key == key) || in_window end width r.signal

-- `toSignal`: the node of a signal is read back from its key
unfoldable pub to_signal : String → SignalRow → ThreatSignal
to_signal key r = record r.signal { node_id = (if key == unattributed then none else some key) }

unfoldable pub signal_rows : String → List SignalRow → List ThreatSignal
unfolding to_signal
signal_rows key rows =
    map (to_signal key)
      (sort (λ a b. ltb a.signal.at_ms b.signal.at_ms) (filter (λ r. r.node_key == key) rows))

-- `window`, where `sinceMs` is `end - width`
unfoldable pub window_rows : String → ℕ → ℕ → List SignalRow → List ThreatSignal × List SignalRow
unfolding signal_rows
window_rows key end width rows =
    let kept = filter (is_kept key end width) rows in (signal_rows key kept, kept)

unfoldable pub clear_rows : String → List SignalRow → ℕ × List SignalRow
clear_rows key rows =
    (length (filter (λ r. r.node_key == key) rows), filter (λ r. not (r.node_key == key)) rows)

pub record ActiveWindow : Type 0 where
  pub node_key : String
  pub signal_count : ℕ
  pub latest_at : ℕ

abbrev counted : ActiveWindow → SignalRow → ActiveWindow
counted a r = record a {
  signal_count = a.signal_count + 1;
  latest_at = max a.latest_at r.signal.at_ms;
}

-- `GROUP BY node_key` with the count and the latest time of each group
unfoldable pub group_rows : List SignalRow → List ActiveWindow
group_rows [] = []
group_rows (r ∷ rows) =
    upsert (λ a. a.node_key == r.node_key) (λ a. counted a r)
      (record { node_key = r.node_key; signal_count = 1; latest_at = r.signal.at_ms })
      (group_rows rows)

unfoldable pub active_windows : ℕ → List SignalRow → List ActiveWindow
unfolding group_rows
active_windows since rows =
    sort (λ a b. ltb b.latest_at a.latest_at)
      (group_rows (filter (λ r. leb since r.signal.at_ms) rows))
