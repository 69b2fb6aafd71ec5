-- ===== src/Threat/Window/Laws.antt =====
-- The sliding windows of signals (services/threat-engine/threat-signal-store.ts).
use bapc_vpn_and_digital_sec.Base.{
  ℕ, String, ◌≡◌, refl, ◌∙◌, false, List, [], ◌∷◌, ◌++◌, arith, ◌==◌, number_eq, string_eq, ==_refl,
  eq_of_==, length, filter,
}
use bapc_vpn_and_digital_sec.Threat.{ThreatSignal}
use bapc_vpn_and_digital_sec.Threat.Window.{
  Windows, signals_of, put, drop_key, record_signal, in_window, keep, window, clear,
}

signals_of-put :
    (key : String) (v : List ThreatSignal) (w : Windows) → signals_of key (put key v w) ≡ v
unfolding signals_of put
signals_of-put key v [] = ground (arith, ==_refl key)
signals_of-put key v ((k, u) ∷ w) = ground (arith, signals_of-put key v w)

signals_of-put_other :
    (key other : String) (v : List ThreatSignal) (w : Windows)
    → (key == other) ≡ false
    → signals_of other (put key v w) ≡ signals_of other w
unfolding signals_of put
signals_of-put_other key other v [] h = ground arith
signals_of-put_other key other v ((k, u) ∷ w) h =
    ground (arith, signals_of-put_other key other v w h, eq_of_== k key)

signals_of-drop_key : (key : String) (w : Windows) → signals_of key (drop_key key w) ≡ []
unfolding signals_of drop_key
signals_of-drop_key key [] = refl
signals_of-drop_key key ((k, u) ∷ w) = ground (arith, signals_of-drop_key key w)

signals_of-drop_other :
    (key other : String) (w : Windows)
    → (key == other) ≡ false
    → signals_of other (drop_key key w) ≡ signals_of other w
unfolding signals_of drop_key
signals_of-drop_other key other [] h = refl
signals_of-drop_other key other ((k, u) ∷ w) h =
    ground (arith, signals_of-drop_other key other w h, eq_of_== k key, eq_of_== key k)

kept : (key : String) (v : List ThreatSignal) (w : Windows) → signals_of key (keep key v w) ≡ v
kept key [] w = signals_of-drop_key key w
kept key (x ∷ v) w = signals_of-put key (x ∷ v) w

kept_other :
    (key other : String) (v : List ThreatSignal) (w : Windows)
    → (key == other) ≡ false
    → signals_of other (keep key v w) ≡ signals_of other w
kept_other key other [] w h = signals_of-drop_other key other w h
kept_other key other (x ∷ v) w h = signals_of-put_other key other (x ∷ v) w h

-- Reading a node's window after a signal was recorded returns, in their order, exactly the node's signals that
-- lie in the window, the new one included; these are what is kept of the node, and the signals of
-- every other node stay as they were.
pub window-record_signal :
    (key : String) (x : ThreatSignal) (end width : ℕ) (w : Windows)
    → ((window key end width (record_signal key x w)).0
        ≡ filter (in_window end width) (signals_of key w ++ x ∷ []))
      × (signals_of key (window key end width (record_signal key x w)).1
          ≡ filter (in_window end width) (signals_of key w ++ x ∷ []))
      × ((other : String)
          → (key == other) ≡ false
          → signals_of other (window key end width (record_signal key x w)).1 ≡ signals_of other w)
unfolding window record_signal
window-record_signal key x end width w = rw (signals_of-put key (signals_of key w ++ x ∷ []) w) (
  refl,
  kept key (filter (in_window end width) (signals_of key w ++ x ∷ []))
      (put key (signals_of key w ++ x ∷ []) w),
  λ other h.
      kept_other key other (filter (in_window end width) (signals_of key w ++ x ∷ []))
        (put key (signals_of key w ++ x ∷ []) w) h
      ∙ signals_of-put_other key other (signals_of key w ++ x ∷ []) w h,
)

-- Clearing a node returns how many signals it had and forgets them, and those of no other node.
pub clear_lem :
    (key other : String) (w : Windows)
    → (key == other) ≡ false
    → ((clear key w).0 ≡ length (signals_of key w))
      × (signals_of key (clear key w).1 ≡ [])
      × (signals_of other (clear key w).1 ≡ signals_of other w)
unfolding clear
clear_lem key other w h = (refl, signals_of-drop_key key w, signals_of-drop_other key other w h)
