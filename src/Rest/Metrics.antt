-- ===== src/Rest/Metrics.antt =====
-- src/api/rest/metrics.ts, `MetricsRegistry`: counters and labelled counters, each a map in the order of
-- its insertions. `before` is the order of `localeCompare` on the names of labels.
use bapc_vpn_and_digital_sec.Base.{
  ℕ, ◌+◌, String, Bool, List, [], ◌∷◌, ◌++◌, map, if◌then◌else◌, ◌==◌, number_eq, string_eq, sort,
  decimal, join_with, ◌<+>◌,
}

abbrev Counters : Type 0
Counters = List (String × ℕ)

pub record Metrics : Type 0 where
  pub counters : Counters
  pub label_sets : List (String × Counters)

unfoldable pub add_to : String → ℕ → Counters → Counters
add_to name by [] = (name, by) ∷ []
add_to name by ((k, n) ∷ m) = if k == name then (k, n + by) ∷ m else (k, n) ∷ add_to name by m

unfoldable pub incr : String → ℕ → Metrics → Metrics
unfolding add_to
incr name by m = record m { counters = add_to name by m.counters }

abbrev quoted : String × String → String
quoted (k, v) = k <+> "=\"" <+> v <+> "\""

unfoldable pub label_key : (String → String → Bool) → List (String × String) → String
label_key before labels = join_with "," (map quoted (sort (λ a b. before a.0 b.0) labels))

unfoldable pub add_labeled :
    String → String → ℕ → List (String × Counters) → List (String × Counters)
unfolding add_to
add_labeled name key by [] = (name, add_to key by []) ∷ []
add_labeled name key by ((k, set) ∷ m) =
    if k == name then (k, add_to key by set) ∷ m else (k, set) ∷ add_labeled name key by m

unfoldable pub incr_labeled :
    (String → String → Bool) → String → List (String × String) → ℕ → Metrics → Metrics
unfolding add_labeled label_key
incr_labeled before name labels by m = record m {
  label_sets = add_labeled name (label_key before labels) by m.label_sets;
}

counter_lines : Counters → List String
counter_lines [] = []
counter_lines ((name, value) ∷ m) =
    ("# TYPE " <+> name <+> " counter") ∷ (name <+> " " <+> decimal value) ∷ counter_lines m

labeled_lines : String → Counters → List String
labeled_lines name [] = []
labeled_lines name ((labels, value) ∷ m) =
    (name <+> "{" <+> labels <+> "} " <+> decimal value) ∷ labeled_lines name m

set_lines : List (String × Counters) → List String
set_lines [] = []
set_lines ((name, set) ∷ m) =
    ("# TYPE " <+> name <+> " counter") ∷ labeled_lines name set ++ set_lines m

unfoldable pub render : Metrics → String
unfolding counter_lines labeled_lines set_lines
render m = join_with "\n" (counter_lines m.counters ++ set_lines m.label_sets) <+> "\n"
