-- ===== src/Rest/Path/Laws.antt =====
-- What a path matches (src/api/rest/router.ts): the patterns of `RestRouter.add` against their meaning as
-- the paths that are written with the captured parts in place of the keys.

use Prim.Native.Char.{Char, code}
use text.Mathlib.TextEquality.{Char-path}
use bapc_vpn_and_digital_sec.Base.{
  String, ◌≡◌, refl, sym, ap, ◌∙◌, ◌↔◌, inl, inr, true, false, Option, none, some, List, [], ◌∷◌,
  map, arith, ◌==◌, eq_ℕ, eq_ℕ_iff, number_eq, string_eq, ==_refl, eq_of_==, Bool-cases, All,
  split_at, push_first, is_empty,
}
use bapc_vpn_and_digital_sec.Rest.Path.{
  Piece, fixed, captured, piece_of, pattern_of, add_first, match_parts, match_path,
}

-- the parts with the captured ones filled in, in order
abbrev pub fill : List Piece → List String → List String
fill [] ws = []
fill (fixed t ∷ ps) ws = t ∷ fill ps ws
fill (captured k ∷ ps) [] = []
fill (captured k ∷ ps) (w ∷ ws) = w ∷ fill ps ws

-- one value for each key, none of them empty
abbrev pub Fits : List Piece → List String → Type 0
Fits [] [] = Unit
Fits [] (w ∷ ws) = ⊥
Fits (fixed t ∷ ps) ws = Fits ps ws
Fits (captured k ∷ ps) [] = ⊥
Fits (captured k ∷ ps) (w ∷ ws) = (is_empty w ≡ false) × Fits ps ws

match-fill :
    (ps : List Piece) (ws : List String) → Fits ps ws → match_parts ps (fill ps ws) ≡ some ws
unfolding match_parts
match-fill [] [] h = refl
match-fill [] (w ∷ ws) h = elim h [ ]
match-fill (fixed t ∷ ps) ws h = rw (==_refl t) (match-fill ps ws h)
match-fill (captured k ∷ ps) [] h = elim h [ ]
match-fill (captured k ∷ ps) (w ∷ ws) h = rw h.0 (rw (match-fill ps ws h.1) refl)

add_first-some :
    (w : String) (o : Option (List String)) (ws : List String)
    → add_first w o ≡ some ws
    → (vs : List String) × (o ≡ some vs) × (ws ≡ w ∷ vs)
add_first-some w none ws h = cc
add_first-some w (some vs) ws h = (vs, refl, cc)

match_sound :
    (ps : List Piece) (parts ws : List String)
    → match_parts ps parts ≡ some ws
    → (parts ≡ fill ps ws) × Fits ps ws
unfolding match_parts
match_sound [] [] [] h = (refl, tt)
match_sound [] [] (v ∷ ws) h = cc
match_sound [] (w ∷ parts) ws h = cc
match_sound (p ∷ ps) [] ws h = cc
match_sound (fixed t ∷ ps) (w ∷ parts) ws h = elim (Bool-cases (t == w)) [
  | inl e ↦ let rest = match_sound ps parts ws (rw e at h) in (cc (eq_of_== t w e, rest.0), rest.1)
  | inr e ↦ let stuck : none ≡ some ws = rw e at h in cc
]
match_sound (captured k ∷ ps) (w ∷ parts) ws h = elim (Bool-cases (is_empty w)) [
  | inl e ↦ let stuck : none ≡ some ws = rw e at h in cc
  | inr e ↦
      let (vs, m, q) = add_first-some w (match_parts ps parts) ws (rw e at h) in
      let rest = match_sound ps parts vs m in rw q (cc (rest.0), (e, rest.1))
]

-- the text of a path with these parts
abbrev glue : String → String → String
glue String.[] s = s
glue (String.◌∷◌ c w) s = String.◌∷◌ c (glue w s)

abbrev after : String → List String → String
after w [] = w
after w (v ∷ vs) = glue w (String.◌∷◌ "/" (after v vs))

abbrev pub write : List String → String
write [] = ""
write (w ∷ ws) = after w ws

abbrev pub NoSlash : String → Type 0
NoSlash String.[] = Unit
NoSlash (String.◌∷◌ c w) = (eq_ℕ (code c) 47 ≡ false) × NoSlash w

split-of_plain : (w : String) → NoSlash w → split_at 47 w ≡ w ∷ []
split-of_plain String.[] h = refl
split-of_plain (String.◌∷◌ c w) h = rw h.0 (rw (split-of_plain w h.1) refl)

split-glue :
    (w s : String) → NoSlash w → split_at 47 (glue w (String.◌∷◌ "/" s)) ≡ w ∷ split_at 47 s
split-glue String.[] s h = refl
split-glue (String.◌∷◌ c w) s h = rw h.0 (rw (split-glue w s h.1) refl)

split-after :
    (w : String) (ws : List String) → All NoSlash (w ∷ ws) → split_at 47 (after w ws) ≡ w ∷ ws
split-after w [] h = split-of_plain w h.0
split-after w (v ∷ vs) h = rw (split-glue w (after v vs) h.0) (rw (split-after v vs h.1) refl)

-- The parts of a split text have no slash, there is one at least, and written again they are the text.
NoSlash-push :
    (c : Char) (parts : List String)
    → eq_ℕ (code c) 47 ≡ false
    → All NoSlash parts
    → All NoSlash (push_first c parts)
NoSlash-push c [] h a = tt
NoSlash-push c (w ∷ ws) h a = ((h, a.0), a.1)

NoSlash-split : (s : String) → All NoSlash (split_at 47 s)
NoSlash-split String.[] = (tt, tt)
NoSlash-split (String.◌∷◌ c s) = elim (Bool-cases (eq_ℕ (code c) 47)) [
  | inl e ↦ rw e (tt, NoSlash-split s)
  | inr e ↦ rw e (NoSlash-push c (split_at 47 s) e (NoSlash-split s))
]

write-push :
    (c : Char) (w : String) (ws : List String)
    → write (push_first c (w ∷ ws)) ≡ String.◌∷◌ c (write (w ∷ ws))
write-push c w [] = refl
write-push c w (v ∷ ws) = refl

abbrev Parts : String → Type 0
Parts s = (w : String) × (ws : List String) × (split_at 47 s ≡ w ∷ ws) × (write (w ∷ ws) ≡ s)

split-Parts : (s : String) → Parts s
split-Parts String.[] = ("", [], refl, refl)
split-Parts (String.◌∷◌ c s) =
    let (w, ws, e, q) = split-Parts s in
    elim (Bool-cases (eq_ℕ (code c) 47)) [
      | inl h ↦ ("", w ∷ ws, rw h (cc e), slash w ws e q h)
      | inr h ↦ other w ws e q h
    ]
  where
    slash :
        (w : String) (ws : List String)
        → split_at 47 s ≡ w ∷ ws
        → write (w ∷ ws) ≡ s
        → eq_ℕ (code c) 47 ≡ true
        → String.◌∷◌ "/" (write (w ∷ ws)) ≡ String.◌∷◌ c s
    slash w ws e q h = cc (q, Char-path c "/" ((eq_ℕ_iff (code c) 47).0 h))

    other :
        (w : String) (ws : List String)
        → split_at 47 s ≡ w ∷ ws
        → write (w ∷ ws) ≡ s
        → eq_ℕ (code c) 47 ≡ false
        → Parts (String.◌∷◌ c s)
    other w ws e q h =
        (String.◌∷◌ c w, ws, rw h (rw e refl), write-push c w ws ∙ ap (String.◌∷◌ c) q)

write-split : (s : String) → write (split_at 47 s) ≡ s
write-split s = let (w, ws, e, q) = split-Parts s in rw e q

abbrev PlainPieces : List Piece → Type 0
PlainPieces [] = Unit
PlainPieces (fixed t ∷ ps) = NoSlash t × PlainPieces ps
PlainPieces (captured k ∷ ps) = PlainPieces ps

add_piece :
    (part : String) (ps : List Piece)
    → NoSlash part
    → PlainPieces ps
    → PlainPieces (piece_of part ∷ ps)
unfolding piece_of
add_piece String.[] ps h a = (tt, a)
add_piece (String.◌∷◌ c rest) ps h a = ground arith

PlainPieces-map : (parts : List String) → All NoSlash parts → PlainPieces (map piece_of parts)
PlainPieces-map [] h = tt
PlainPieces-map (w ∷ ws) h = add_piece w (map piece_of ws) h.0 (PlainPieces-map ws h.1)

NoSlash-fill :
    (ps : List Piece) (ws : List String)
    → PlainPieces ps
    → Fits ps ws
    → All NoSlash (fill ps ws) ↔ All NoSlash ws
NoSlash-fill [] [] p h = (λ a. a, λ a. a)
NoSlash-fill [] (w ∷ ws) p h = elim h [ ]
NoSlash-fill (fixed t ∷ ps) ws p h =
    let rest = NoSlash-fill ps ws p.1 h in (λ a. rest.0 a.1, λ a. (p.0, rest.1 a))
NoSlash-fill (captured k ∷ ps) [] p h = elim h [ ]
NoSlash-fill (captured k ∷ ps) (w ∷ ws) p h =
    let rest = NoSlash-fill ps ws p h.1 in (λ a. (a.0, rest.0 a.1), λ a. (a.0, rest.1 a.1))

split-fill :
    (p : Piece) (ps : List Piece) (ws : List String)
    → Fits (p ∷ ps) ws
    → All NoSlash (fill (p ∷ ps) ws)
    → split_at 47 (write (fill (p ∷ ps) ws)) ≡ fill (p ∷ ps) ws
split-fill (fixed t) ps ws f h = split-after t (fill ps ws) h
split-fill (captured k) ps [] f h = elim f [ ]
split-fill (captured k) ps (w ∷ ws) f h = split-after w (fill ps ws) h

match-write :
    (parts : List String) (t : String) (ts ws : List String)
    → parts ≡ t ∷ ts
    → PlainPieces (map piece_of parts)
    → Fits (map piece_of parts) ws
    → All NoSlash ws
    → match_parts (map piece_of parts) (split_at 47 (write (fill (map piece_of parts) ws)))
      ≡ some ws
match-write parts t ts ws e p f n =
    let ps = map piece_of ts in
    let f' : Fits (piece_of t ∷ ps) ws = rw e at f in
    let whole : All NoSlash (fill (piece_of t ∷ ps) ws) =
      rw e at ((NoSlash-fill (map piece_of parts) ws p f).1 n) in
    rw e (rw (split-fill (piece_of t) ps ws f' whole) (match-fill (piece_of t ∷ ps) ws f'))

-- A path matches the pattern of a template with certain captured values exactly if it is the template
-- with those values in place of its keys, one for each key, none of them empty and none with a slash.
pub match_path_iff :
    (template path : String) (ws : List String)
    → (match_path (pattern_of template) path ≡ some ws) ↔ (
        (path ≡ write (fill (pattern_of template) ws))
        × Fits (pattern_of template) ws
        × All NoSlash ws)
unfolding match_path pattern_of
match_path_iff template path ws = (forward, backward)
  where
    ps : List Piece
    ps = map piece_of (split_at 47 template)

    plain_ps : PlainPieces ps
    plain_ps = PlainPieces-map (split_at 47 template) (NoSlash-split template)

    forward :
        match_parts ps (split_at 47 path) ≡ some ws
        → (path ≡ write (fill ps ws)) × Fits ps ws × All NoSlash ws
    forward h =
        let r = match_sound ps (split_at 47 path) ws h in
        let whole : All NoSlash (fill ps ws) = rw r.0 at (NoSlash-split path) in
        (sym (write-split path) ∙ ap write r.0, r.1, (NoSlash-fill ps ws plain_ps r.1).0 whole)

    backward :
        (path ≡ write (fill ps ws)) × Fits ps ws × All NoSlash ws
        → match_parts ps (split_at 47 path) ≡ some ws
    backward (e, f, n) =
        let (t, ts, q, _) = split-Parts template in
        rw e (match-write (split_at 47 template) t ts ws q plain_ps f n)
