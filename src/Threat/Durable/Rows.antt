-- ===== src/Threat/Durable/Rows.antt =====
-- The rows of the durable windows (services/threat-engine/pg-threat-signal-store.ts): their order, what they
-- read back as, and the signals of one node.
use bapc_vpn_and_digital_sec.Base.{
  ℕ, ◌≤◌, String, ◌≡◌, refl, inl, inr, Bool, false, List, [], ◌∷◌, ◌++◌, map, arith, if◌then◌else◌,
  ltb, ◌==◌, number_eq, string_eq, ==_refl, eq_of_==, Bool-cases, filter, All, insert_sorted, sort,
}
use bapc_vpn_and_digital_sec.Threat.{ThreatSignal}
use bapc_vpn_and_digital_sec.Threat.Window.{Windows, signals_of, in_window}
use bapc_vpn_and_digital_sec.Threat.SignalTable.{SignalRow, is_kept, to_signal, signal_rows}

abbrev pub earlier : SignalRow → SignalRow → Bool
earlier a b = ltb a.signal.at_ms b.signal.at_ms

abbrev pub NotBefore : SignalRow → SignalRow → Type 0
NotBefore r q = r.signal.at_ms ≤ q.signal.at_ms

-- The rows are in the order of their times.
abbrev pub InOrder : List SignalRow → Type 0
InOrder [] = Unit
InOrder (r ∷ rs) = All (NotBefore r) rs × InOrder rs

-- A row reads back as the signal that was written.
abbrev pub ReadsBack : SignalRow → Type 0
ReadsBack r = to_signal r.node_key r ≡ r.signal

abbrev pub has_node_key : String → SignalRow → Bool
has_node_key key r = r.node_key == key

-- the signals of a node, in the order of the rows
abbrev pub written : String → List SignalRow → List ThreatSignal
written key rows = map (λ r. r.signal) (filter (has_node_key key) rows)

-- The rows and the map hold the same signals of each node.
abbrev pub Represents : List SignalRow → Windows → Type 0
Represents rows w = (key : String) → written key rows ≡ signals_of key w

pub filter-All :
    {A : Type 0} (P : A → Type 0) (p : A → Bool) (xs : List A) → All P xs → All P (filter p xs)
filter-All P p [] h = tt
filter-All P p (x ∷ xs) h = ground (arith, filter-All P p xs h.1)

pub InOrder-filter :
    (p : SignalRow → Bool) (rows : List SignalRow) → InOrder rows → InOrder (filter p rows)
InOrder-filter p [] h = tt
InOrder-filter p (r ∷ rows) h = elim (Bool-cases (p r)) [
  | inl e ↦ rw e (filter-All (NotBefore r) p rows h.0, InOrder-filter p rows h.1)
  | inr e ↦ rw e (InOrder-filter p rows h.1)
]

pub All-append_one :
    {A : Type 0} (P : A → Type 0) (xs : List A) (x : A) → All P xs → P x → All P (xs ++ x ∷ [])
All-append_one P [] x h p = (p, tt)
All-append_one P (y ∷ xs) x h p = (h.0, All-append_one P xs x h.1 p)

pub InOrder-append :
    (rows : List SignalRow) (r : SignalRow)
    → InOrder rows
    → All (λ q. NotBefore q r) rows
    → InOrder (rows ++ r ∷ [])
InOrder-append [] r h a = (tt, tt)
InOrder-append (q ∷ rows) r h a =
    (All-append_one (NotBefore q) rows r h.0 a.0, InOrder-append rows r h.1 a.1)

pub insert_first :
    (r : SignalRow) (rows : List SignalRow)
    → All (NotBefore r) rows
    → insert_sorted earlier r rows ≡ r ∷ rows
insert_first r [] h = refl
insert_first r (q ∷ rows) h = ground arith

pub sort-InOrder : (rows : List SignalRow) → InOrder rows → sort earlier rows ≡ rows
sort-InOrder [] h = refl
sort-InOrder (r ∷ rows) h = rw (sort-InOrder rows h.1) (insert_first r rows h.0)

pub cons_equal : {A : Type 0} {a b : A} {xs ys : List A} → a ≡ b → xs ≡ ys → a ∷ xs ≡ b ∷ ys
cons_equal e q = cc

pub map-to_signal :
    (key : String) (rows : List SignalRow)
    → All ReadsBack rows
    → map (to_signal key) (filter (has_node_key key) rows) ≡ written key rows
unfolding to_signal
map-to_signal key [] h = refl
map-to_signal key (r ∷ rows) h = elim (Bool-cases (r.node_key == key)) [
  | inl e ↦
      let same = eq_of_== r.node_key key e in
      rw e (cons_equal (rw same at h.0) (map-to_signal key rows h.1))
  | inr e ↦ rw e (map-to_signal key rows h.1)
]

pub signal_rows-InOrder :
    (key : String) (rows : List SignalRow)
    → InOrder rows
    → All ReadsBack rows
    → signal_rows key rows ≡ written key rows
unfolding signal_rows
signal_rows-InOrder key rows o b =
    rw (sort-InOrder (filter (has_node_key key) rows) (InOrder-filter (has_node_key key) rows o))
      (map-to_signal key rows b)

pub written-kept :
    (key : String) (end width : ℕ) (rows : List SignalRow)
    → written key (filter (is_kept key end width) rows)
      ≡ filter (in_window end width) (written key rows)
written-kept key end width [] = refl
written-kept key end width (r ∷ rows) = ground (arith, written-kept key end width rows)

pub written-kept_other :
    (key other : String) (end width : ℕ) (rows : List SignalRow)
    → (key == other) ≡ false
    → written other (filter (is_kept key end width) rows) ≡ written other rows
written-kept_other key other end width [] h = refl
written-kept_other key other end width (r ∷ rows) h = ground (
  arith,
  written-kept_other key other end width rows h,
  eq_of_== r.node_key key,
  eq_of_== r.node_key other,
  ==_refl other,
)

pub written-append :
    (key : String) (rows : List SignalRow) (r : SignalRow)
    → written key (rows ++ r ∷ [])
      ≡ (if r.node_key == key then written key rows ++ r.signal ∷ [] else written key rows)
written-append key [] r = ground arith
written-append key (q ∷ rows) r = ground (arith, written-append key rows r)
