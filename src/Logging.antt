-- ===== src/Logging.antt =====
-- internal/logging/logger.go. An entry holds a reference to a map of fields, or nil: WithFields of a
-- Logger stores the map of its caller, so a map is a place of a heap. Printing a value with fmt is a
-- parameter: a field's value is its text. Time and formats are left out.
pub mod Fields
use harbor_hook.Common.{
  ℕ, zero, suc, ◌+◌, String, List, [], ◌∷◌, ◌++◌, length, Option, none, some, Bool, true, false,
  not, ◌==◌, filter, if◌then◌else◌,
}

-- map[string]any, each key once
abbrev pub FieldMap : Type 0
FieldMap = List (String × String)

-- The maps of the program; a reference is a place of the list.
abbrev pub Heap : Type 0
Heap = List FieldMap

pub data LogLevel : Type 0 where
  unset debug info warn error fatal : LogLevel

pub record LogEntry : Type 0 where
  pub level : LogLevel
  pub message : String
  pub service : String
  pub trace_id : String
  pub tenant_id : String
  pub event_id : String
  pub delivery_id : String
  pub endpoint_id : String
  pub fields : Option ℕ

pub record Logger : Type 0 where
  pub service : String

-- New, and SetDefaultService on the default logger
abbrev pub new_logger : String → Logger
new_logger service = record { service = service }

abbrev pub set_default_service : String → Logger → Logger
set_default_service service l = record l { service = service }

-- m[key] = value
abbrev pub set_field : String → String → FieldMap → FieldMap
set_field key value [] = (key, value) ∷ []
set_field key value ((k, v) ∷ m) =
    if k == key then (k, value) ∷ m else (k, v) ∷ set_field key value m

-- the loop of WithFields, over the caller's map in some order
abbrev pub set_fields : FieldMap → FieldMap → FieldMap
set_fields [] m = m
set_fields ((k, v) ∷ more) m = set_fields more (set_field k v m)

-- the map at a place, which is empty behind the heap's end
abbrev pub map_at : Heap → ℕ → FieldMap
map_at [] i = []
map_at (m ∷ h) zero = m
map_at (m ∷ h) (suc i) = map_at h i

abbrev pub write_at : ℕ → FieldMap → Heap → Heap
write_at i m [] = []
write_at zero m (n ∷ h) = m ∷ h
write_at (suc i) m (n ∷ h) = n ∷ write_at i m h

abbrev pub new_entry : Logger → Option ℕ → LogEntry
new_entry l fields = record {
  level = unset;
  message = "";
  service = l.service;
  trace_id = "";
  tenant_id = "";
  event_id = "";
  delivery_id = "";
  endpoint_id = "";
  fields = fields;
}

-- make(map[string]any)
abbrev pub make_map : Heap → ℕ × Heap
make_map h = (length h, h ++ [] ∷ [])

-- Logger.Plain
unfoldable pub plain : Logger → Heap → LogEntry × Heap
plain l h = let (i, h') = make_map h in (new_entry l (some i), h')

-- Logger.WithContext; the trace id of the context, "" if it has none
unfoldable pub with_context : Logger → String → Heap → LogEntry × Heap
with_context l trace_id h =
    let (i, h') = make_map h in (record (new_entry l (some i)) { trace_id = trace_id }, h')

-- Logger.WithFields: the entry shares the caller's map
unfoldable pub logger_with_fields : Logger → Option ℕ → Heap → LogEntry × Heap
logger_with_fields l fields h = (new_entry l fields, h)

-- WithTraceID, WithTenant, WithEvent, WithDelivery and WithEndpoint
abbrev pub with_trace_id : String → LogEntry → LogEntry
with_trace_id id e = record e { trace_id = id }

abbrev pub with_tenant : String → LogEntry → LogEntry
with_tenant id e = record e { tenant_id = id }

abbrev pub with_event : String → LogEntry → LogEntry
with_event id e = record e { event_id = id }

abbrev pub with_delivery : String → LogEntry → LogEntry
with_delivery id e = record e { delivery_id = id }

abbrev pub with_endpoint : String → LogEntry → LogEntry
with_endpoint id e = record e { endpoint_id = id }

-- an update of the entry's map, which is made if it is nil
abbrev pub update_map : (FieldMap → FieldMap) → Option ℕ → LogEntry → Heap → LogEntry × Heap
update_map f (some i) e h = (e, write_at i (f (map_at h i)) h)
update_map f none e h = (record e { fields = some (length h) }, h ++ f [] ∷ [])

-- WithField
unfoldable pub with_field : String → String → LogEntry → Heap → LogEntry × Heap
with_field key value e h = update_map (set_field key value) e.fields e h

-- WithFields of an entry, which copies
unfoldable pub with_fields : FieldMap → LogEntry → Heap → LogEntry × Heap
with_fields more e h = update_map (set_fields more) e.fields e h

-- WithError; a nil error changes nothing
unfoldable pub with_error : Option String → LogEntry → Heap → LogEntry × Heap
unfolding with_field
with_error none e h = (e, h)
with_error (some text) e h = with_field "error" text e h

-- what output writes: the entry, with its fields unless they are empty, and whether the process ends
pub record Line : Type 0 where
  pub entry : LogEntry
  pub fields : Option FieldMap
  pub exits : Bool

abbrev pub shown : FieldMap → Option FieldMap
shown [] = none
shown (f ∷ fs) = some (f ∷ fs)

abbrev pub fields_of : Option ℕ → Heap → FieldMap
fields_of none h = []
fields_of (some i) h = map_at h i

-- output
unfoldable pub output : Bool → LogEntry → Heap → Line
output exits e h = record { entry = e; fields = shown (fields_of e.fields h); exits = exits }

-- Debug, Info, Warn and Error
unfoldable pub log_at : LogLevel → String → LogEntry → Heap → Line
unfolding output
log_at level message e h = output false (record e { level = level; message = message }) h

-- Fatal
unfoldable pub log_fatal : String → LogEntry → Heap → Line
unfolding output
log_fatal message e h = output true (record e { level = fatal; message = message }) h
