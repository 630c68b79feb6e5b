-- ===== src/Fabrication/LogicalData.antt =====
-- fabrication/rev_a_package.json: the logical table, as far as the checks read it.
use Prim.Native.String.{String}
use lca.Prelude.{ℕ, ℤ, pos, [], ◌∷◌}
use lca.Text.{codes}
use lca.Json.{Json, int, string, object, field, fields_of}
use lca.Fabrication.Entries.{list}

abbrev pad : ℕ → String → String → String → Json ℤ → ℕ → ℕ → Json ℤ
pad gpio signal direction dm oeb inp_dis qfn_pin = object (
    fields_of (
      (codes "gpio", int (pos gpio))
      ∷ (codes "signal", string (codes signal))
      ∷ (codes "direction", string (codes direction))
      ∷ (codes "dm", string (codes dm))
      ∷ (codes "oeb", oeb)
      ∷ (codes "inp_dis", int (pos inp_dis))
      ∷ (codes "qfn_pin", int (pos qfn_pin))
      ∷ []))

abbrev with_safe_state : String → Json ℤ → Json ℤ
with_safe_state state (object fs) = object (field (codes "safe_state") (string (codes state)) fs)
with_safe_state state v = v

abbrev pub logical : Json ℤ
logical = list (
    pad 0 "host_d[0]" "bidirectional" "110" (string (codes "dynamic_rsp_valid")) 0 31
    ∷ pad 1 "host_d[1]" "bidirectional" "110" (string (codes "dynamic_rsp_valid")) 0 32
    ∷ pad 2 "host_d[2]" "bidirectional" "110" (string (codes "dynamic_rsp_valid")) 0 33
    ∷ pad 3 "host_d[3]" "bidirectional" "110" (string (codes "dynamic_rsp_valid")) 0 34
    ∷ pad 4 "host_d[4]" "bidirectional" "110" (string (codes "dynamic_rsp_valid")) 0 35
    ∷ pad 5 "host_d[5]" "bidirectional" "110" (string (codes "dynamic_rsp_valid")) 0 36
    ∷ pad 6 "host_d[6]" "bidirectional" "110" (string (codes "dynamic_rsp_valid")) 0 37
    ∷ pad 7 "host_d[7]" "bidirectional" "110" (string (codes "dynamic_rsp_valid")) 0 41
    ∷ pad 8 "host_d[8]" "bidirectional" "110" (string (codes "dynamic_rsp_valid")) 0 42
    ∷ pad 9 "host_d[9]" "bidirectional" "110" (string (codes "dynamic_rsp_valid")) 0 43
    ∷ pad 10 "host_d[10]" "bidirectional" "110" (string (codes "dynamic_rsp_valid")) 0 44
    ∷ pad 11 "host_d[11]" "bidirectional" "110" (string (codes "dynamic_rsp_valid")) 0 45
    ∷ pad 12 "host_d[12]" "bidirectional" "110" (string (codes "dynamic_rsp_valid")) 0 46
    ∷ pad 13 "host_d[13]" "bidirectional" "110" (string (codes "dynamic_rsp_valid")) 0 48
    ∷ pad 14 "host_d[14]" "bidirectional" "110" (string (codes "dynamic_rsp_valid")) 0 50
    ∷ pad 15 "host_d[15]" "bidirectional" "110" (string (codes "dynamic_rsp_valid")) 0 51
    ∷ pad 16 "host_addr[0]" "input" "001" (int (pos 1)) 0 53
    ∷ pad 17 "host_addr[1]" "input" "001" (int (pos 1)) 0 54
    ∷ pad 18 "host_addr[2]" "input" "001" (int (pos 1)) 0 55
    ∷ pad 19 "host_addr[3]" "input" "001" (int (pos 1)) 0 57
    ∷ pad 20 "host_addr[4]" "input" "001" (int (pos 1)) 0 58
    ∷ pad 21 "host_addr[5]" "input" "001" (int (pos 1)) 0 59
    ∷ pad 22 "host_addr[6]" "input" "001" (int (pos 1)) 0 60
    ∷ pad 23 "host_addr[7]" "input" "001" (int (pos 1)) 0 61
    ∷ pad 24 "req_valid" "input" "001" (int (pos 1)) 0 62
    ∷ pad 25 "req_ready" "output" "110" (int (pos 0)) 1 2
    ∷ pad 26 "req_write" "input" "001" (int (pos 1)) 0 3
    ∷ pad 27 "req_last" "input" "001" (int (pos 1)) 0 4
    ∷ pad 28 "rsp_valid" "output" "110" (int (pos 0)) 1 5
    ∷ pad 29 "rsp_ready" "input" "001" (int (pos 1)) 0 6
    ∷ pad 30 "rsp_last" "output" "110" (int (pos 0)) 1 7
    ∷ pad 31 "irq" "output" "110" (int (pos 0)) 1 8
    ∷ with_safe_state "external pull-down; disconnected means tamper asserted"
        (pad 32 "tamper_n" "input" "001" (int (pos 1)) 0 11)
    ∷ pad 33 "zeroize_req" "input" "001" (int (pos 1)) 0 12
    ∷ pad 34 "busy" "output" "110" (int (pos 0)) 1 13
    ∷ pad 35 "fault" "output" "110" (int (pos 0)) 1 14
    ∷ pad 36 "zeroize_busy" "output" "110" (int (pos 0)) 1 15
    ∷ pad 37 "selftest_fail" "output" "110" (int (pos 0)) 1 16
    ∷ pad 38 "host_clk" "input" "001" (int (pos 1)) 0 22
    ∷ pad 39 "reserved[0]" "disabled" "000" (int (pos 1)) 1 24
    ∷ pad 40 "reserved[1]" "disabled" "000" (int (pos 1)) 1 25
    ∷ pad 41 "reserved[2]" "disabled" "000" (int (pos 1)) 1 26
    ∷ pad 42 "reserved[3]" "disabled" "000" (int (pos 1)) 1 27
    ∷ pad 43 "reserved[4]" "disabled" "000" (int (pos 1)) 1 28
    ∷ [])
