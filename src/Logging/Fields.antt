-- ===== src/Logging/Fields.antt =====
-- What a line of internal/logging/logger.go shows, and whose map an entry writes.
use harbor_hook.Common.{
  ℕ, zero, suc, ◌<◌, String, [], ◌∷◌, length, Option, none, some, ◌==◌, if◌then◌else◌, ◌≡◌, refl,
  arith, Bool-cases, inl, inr, eq_refl, ap, ◌∙◌,
}
use harbor_hook.Logging.{
  FieldMap, Heap, Logger, set_field, map_at, write_at, logger_with_fields, with_field,
}

-- m[key]
abbrev pub field : String → FieldMap → Option String
field key [] = none
field key ((k, v) ∷ m) = if k == key then some v else field key m

field-set_field :
    (key value : String) (m : FieldMap) → field key (set_field key value m) ≡ some value
field-set_field key value [] = rw (eq_refl key) refl
field-set_field key value ((k, v) ∷ m) = elim (Bool-cases (k == key)) [
  | inl e ↦ rw e (rw e refl)
  | inr e ↦ rw e (rw (e, field-set_field key value m) refl)
]

map_at-write_at : (i : ℕ) (m : FieldMap) (h : Heap) → i < length h → map_at (write_at i m h) i ≡ m
map_at-write_at i m [] k = absurd (omega arith)
map_at-write_at zero m (n ∷ h) k = refl
map_at-write_at (suc i) m (n ∷ h) k = map_at-write_at i m h (omega arith)

-- An entry of the logger's WithFields shares the map of its caller: where the map is a place of the
-- heap, a field that WithField adds to the entry is found in the caller's map.
pub logger_with_fields-with_field :
    (l : Logger) (i : ℕ) (key value : String) (h : Heap)
    → i < length h
    → let (e, h₁) = logger_with_fields l (some i) h in
      field key (map_at (with_field key value e h₁).1 i) ≡ some value
unfolding logger_with_fields with_field
logger_with_fields-with_field l i key value h k =
    ap (field key) (map_at-write_at i (set_field key value (map_at h i)) h k)
    ∙ field-set_field key value (map_at h i)
