-- ===== src/Schema/Document.antt =====
-- tools/power_trace_from_vcd.py: `trace_payload`, and spec/power-trace.schema.json, the document
-- that `load_schema` reads. The metadata of a trace is any dictionary.
use lca.Prelude.{false, List, [], ◌∷◌, map, Option, none, some, pos}
use lca.Floats.{Floats}
use lca.Text.{Text, codes}
use lca.Json.{Json, null, bool, int, float, string, array, object, Fields, fields_of, items_of}
use lca.PowerContract.{ActivitySample, PowerTrace}

module _ (F : Floats) where
  open F use {Float}

  abbrev pub watts_json : Option Float → Json Float
  watts_json none = null
  watts_json (some w) = float w

  abbrev pub sample_payload : ActivitySample F → Json Float
  sample_payload s = object (
      fields_of (
        (codes "timestamp_ns", int s.timestamp_ns)
        ∷ (codes "state", string s.state)
        ∷ (codes "active_lanes", int s.active_lanes)
        ∷ (codes "clock_hz", int s.clock_hz)
        ∷ (codes "estimated_watts", watts_json s.estimated_watts)
        ∷ (codes "measured_watts", watts_json s.measured_watts)
        ∷ []))

  abbrev pub trace_payload : PowerTrace F → Fields Float → Json Float
  trace_payload t metadata = object (
      fields_of (
        (codes "schema_version", string (codes "1.0"))
        ∷ (codes "source", string t.source)
        ∷ (codes "hardware_id", string t.hardware_id)
        ∷ (codes "operation", string t.operation)
        ∷ (codes "metadata", object metadata)
        ∷ (codes "samples", array (items_of (map sample_payload t.samples)))
        ∷ []))

  abbrev dict : List (Text × Json Float) → Json Float
  dict entries = object (fields_of entries)

  abbrev texts : List Text → Json Float
  texts ts = array (items_of (map string ts))

  abbrev name_schema : Json Float
  name_schema =
      dict ((codes "type", string (codes "string")) ∷ (codes "minLength", int (pos 1)) ∷ [])

  abbrev pub state_schema : Json Float
  state_schema = dict (
      (
        codes "enum",
        texts (
            codes "idle"
            ∷ codes "kem"
            ∷ codes "dsa"
            ∷ codes "dma"
            ∷ codes "zeroize"
            ∷ codes "fault"
            ∷ []),
      )
      ∷ [])

  abbrev pub watts_schema : Json Float
  watts_schema = dict (
      (codes "type", texts (codes "number" ∷ codes "null" ∷ []))
      ∷ (codes "minimum", int (pos 0))
      ∷ [])

  abbrev pub sample_schema : Json Float
  sample_schema = dict (
      (codes "type", string (codes "object"))
      ∷ (codes "additionalProperties", bool false)
      ∷ (
        codes "required",
        texts (
            codes "timestamp_ns"
            ∷ codes "state"
            ∷ codes "active_lanes"
            ∷ codes "clock_hz"
            ∷ codes "estimated_watts"
            ∷ codes "measured_watts"
            ∷ []),
      )
      ∷ (
        codes "properties",
        dict (
            (
              codes "timestamp_ns",
              dict ((codes "type", string (codes "integer")) ∷ (codes "minimum", int (pos 0)) ∷ []),
            )
            ∷ (codes "state", state_schema)
            ∷ (
              codes "active_lanes",
              dict ((codes "type", string (codes "integer")) ∷ (codes "minimum", int (pos 0)) ∷ []),
            )
            ∷ (
              codes "clock_hz",
              dict ((codes "type", string (codes "integer")) ∷ (codes "minimum", int (pos 1)) ∷ []),
            )
            ∷ (codes "estimated_watts", watts_schema)
            ∷ (codes "measured_watts", watts_schema)
            ∷ []),
      )
      ∷ [])

  abbrev pub samples_schema : Json Float
  samples_schema = dict (
      (codes "type", string (codes "array"))
      ∷ (codes "minItems", int (pos 2))
      ∷ (codes "items", sample_schema)
      ∷ [])

  abbrev pub trace_schema : Json Float
  trace_schema = dict (
      (codes "$schema", string (codes "https://json-schema.org/draft/2020-12/schema"))
      ∷ (
        codes "$id",
        string (codes "https://github.com/0xSoftBoi/LCA-1/spec/power-trace.schema.json"),
      )
      ∷ (codes "title", string (codes "LCA-1 activity and power trace"))
      ∷ (codes "type", string (codes "object"))
      ∷ (codes "additionalProperties", bool false)
      ∷ (
        codes "required",
        texts (
            codes "schema_version"
            ∷ codes "source"
            ∷ codes "hardware_id"
            ∷ codes "operation"
            ∷ codes "metadata"
            ∷ codes "samples"
            ∷ []),
      )
      ∷ (
        codes "properties",
        dict (
            (codes "schema_version", dict ((codes "const", string (codes "1.0")) ∷ []))
            ∷ (codes "source", name_schema)
            ∷ (codes "hardware_id", name_schema)
            ∷ (codes "operation", name_schema)
            ∷ (codes "metadata", dict ((codes "type", string (codes "object")) ∷ []))
            ∷ (codes "samples", samples_schema)
            ∷ []),
      )
      ∷ [])
