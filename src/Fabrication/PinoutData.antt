-- ===== src/Fabrication/PinoutData.antt =====
-- fabrication/rev_a_package.json: the pin table.
use Prim.Native.String.{String}
use lca.Prelude.{ℤ, [], ◌∷◌}
use lca.Text.{codes}
use lca.Json.{Json, string, object, fields_of}
use lca.Fabrication.Entries.{list}

abbrev pin : String → String → Json ℤ
pin number name =
    object
      (fields_of ((codes "pin", string (codes number)) ∷ (codes "name", string (codes name)) ∷ []))

abbrev pub pinout : Json ℤ
pinout = list (
    pin "1" "vssa2"
    ∷ pin "2" "gpio[25]"
    ∷ pin "3" "gpio[26]"
    ∷ pin "4" "gpio[27]"
    ∷ pin "5" "gpio[28]"
    ∷ pin "6" "gpio[29]"
    ∷ pin "7" "gpio[30]"
    ∷ pin "8" "gpio[31]"
    ∷ pin "9" "vdda2"
    ∷ pin "10" "vssd2"
    ∷ pin "11" "gpio[32]"
    ∷ pin "12" "gpio[33]"
    ∷ pin "13" "gpio[34]"
    ∷ pin "14" "gpio[35]"
    ∷ pin "15" "gpio[36]"
    ∷ pin "16" "gpio[37]"
    ∷ pin "17" "vddio"
    ∷ pin "18" "vccd"
    ∷ pin "19" "N/C"
    ∷ pin "20" "vssa"
    ∷ pin "21" "resetb"
    ∷ pin "22" "gpio[38]"
    ∷ pin "23" "vssd"
    ∷ pin "24" "gpio[39]"
    ∷ pin "25" "gpio[40]"
    ∷ pin "26" "gpio[41]"
    ∷ pin "27" "gpio[42]"
    ∷ pin "28" "gpio[43]"
    ∷ pin "29" "vssio"
    ∷ pin "30" "vdda"
    ∷ pin "31" "gpio[0]"
    ∷ pin "32" "gpio[1]"
    ∷ pin "33" "gpio[2]"
    ∷ pin "34" "gpio[3]"
    ∷ pin "35" "gpio[4]"
    ∷ pin "36" "gpio[5]"
    ∷ pin "37" "gpio[6]"
    ∷ pin "38" "vssa1"
    ∷ pin "39" "vssd1"
    ∷ pin "40" "vdda1"
    ∷ pin "41" "gpio[7]"
    ∷ pin "42" "gpio[8]"
    ∷ pin "43" "gpio[9]"
    ∷ pin "44" "gpio[10]"
    ∷ pin "45" "gpio[11]"
    ∷ pin "46" "gpio[12]"
    ∷ pin "47" "vdda1"
    ∷ pin "48" "gpio[13]"
    ∷ pin "49" "vccd1"
    ∷ pin "50" "gpio[14]"
    ∷ pin "51" "gpio[15]"
    ∷ pin "52" "vssa1"
    ∷ pin "53" "gpio[16]"
    ∷ pin "54" "gpio[17]"
    ∷ pin "55" "gpio[18]"
    ∷ pin "56" "vssio"
    ∷ pin "57" "gpio[19]"
    ∷ pin "58" "gpio[20]"
    ∷ pin "59" "gpio[21]"
    ∷ pin "60" "gpio[22]"
    ∷ pin "61" "gpio[23]"
    ∷ pin "62" "gpio[24]"
    ∷ pin "63" "vccd2"
    ∷ pin "64" "vddio"
    ∷ pin "EP" "VSS"
    ∷ [])
